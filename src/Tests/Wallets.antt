-- ===== src/Tests/Wallets.antt =====
-- Runs of the use case that saves wallets.
use block_listener.Base.{
  String, ◌≡◌, refl, false, ◌||◌, ◌&&◌, any, ◌===◌, string_eq, [], ◌∷◌, Option, none, some, arith,
}
use block_listener.Base.Task.{returns}
use block_listener.Values.{
  BlockchainId, WalletType, WalletTagName, AddressRelationType, tag_eq, relation_eq,
}
use block_listener.Entities.Wallet.{Wallet, NewRelation}
use block_listener.Entities.Wallet.Merge.{has_tag, has_relation, IsMerged}
use block_listener.Messages.{WalletDiscoveredPayload}
use block_listener.App.{App}
use block_listener.Utils.Address.{checksumed, to_lower_case}
use block_listener.UseCases.SaveWallet.{Deps, updated}
use block_listener.UseCases.SaveWallet.Result.{updated_lem, updated-IsMerged}
use block_listener.UseCases.SaveWallet.Flow.{updated_by}
use block_listener.UseCases.SaveWallet.Race.{at_once, updated_effects, at_once-loses}

abbrev plain_wallet : Wallet
plain_wallet = record {
  props = record {
    blockchain = BlockchainId.ethereum;
    address = "0xa";
    alias = none;
    type = WalletType.unknown_wallet;
    tags = record { tag = WalletTagName.added_manually; created_at = 1 } ∷ [];
    relations = [];
    created_at = 1;
  };
  id = none;
}

abbrev to_b : NewRelation
to_b = record {
  address = "0xb";
  type = AddressRelationType.transfer_sent;
  created_at = none;
  metadata = none;
}

-- A database that has one wallet or none, and a broker that accepts every message.
abbrev deps : Deps (Option Wallet)
deps = record {
  get_address = λ a. some a;
  is_ens_name = λ a. false;
  resolve_name = λ b a d. returns none d;
  find_one = λ a b d. returns d d;
  save = λ w d. returns tt (some w);
  create = λ now alias address blockchain type. some plain_wallet;
  wallet_txs = λ b a d. returns ("0x1" ∷ "0x2" ∷ []) d;
  publish_error = λ m d. none;
  now = 9;
}

abbrev payload : WalletDiscoveredPayload
payload = record {
  blockchain = BlockchainId.ethereum;
  alias = some "friend";
  address = "0xa";
  type = none;
  tags = some (WalletTagName.found_with_searcher ∷ WalletTagName.found_with_searcher ∷ []);
  relations = some (to_b ∷ to_b ∷ []);
}

abbrev known : App (Option Wallet)
known = record { db = some plain_wallet; effects = [] }

abbrev empty : App (Option Wallet)
empty = record { db = none; effects = [] }

updated_lem_example :
    ((t : WalletTagName)
      → has_tag t
          (updated deps plain_wallet (WalletTagName.found_with_searcher ∷ []) (to_b ∷ []) none none)
        ≡ (has_tag t plain_wallet || any (λ x. x === t) (WalletTagName.found_with_searcher ∷ [])))
    × ((a : String) (k : AddressRelationType)
        → has_relation a k (
            updated deps plain_wallet
              (WalletTagName.found_with_searcher ∷ [])
              (to_b ∷ [])
              none
              none)
          ≡ (has_relation a k plain_wallet
              || any (λ r. r.address === a && r.type === k) (to_b ∷ [])))
updated_lem_example =
    updated_lem deps plain_wallet (WalletTagName.found_with_searcher ∷ []) (to_b ∷ []) none none

plain_wallet-IsMerged : IsMerged plain_wallet
plain_wallet-IsMerged = record {
  tags_once = λ t. ground arith;
  relations_once = λ a k. omega arith;
}

updated-IsMerged_example :
    IsMerged
      (updated deps plain_wallet (WalletTagName.added_manually ∷ []) (to_b ∷ to_b ∷ []) none none)
updated-IsMerged_example =
    updated-IsMerged deps plain_wallet (WalletTagName.added_manually ∷ []) (to_b ∷ to_b ∷ []) none
      none plain_wallet-IsMerged

-- Two messages with a tag each about the wallet of `known`.
abbrev tagged : WalletTagName → WalletDiscoveredPayload
tagged t = record payload { tags = some (t ∷ []); relations = none }

at_once-loses_example :
    let first = tagged WalletTagName.found_with_searcher in
    let second = tagged WalletTagName.found_iterating_blocks in
    (at_once deps first second known
      ≡ returns tt (record {
        db = some (updated_by deps second plain_wallet);
        effects =
            updated_effects
              (updated_by deps second plain_wallet)
              (updated_effects (updated_by deps first plain_wallet) []);
      }))
    × ((t : WalletTagName)
        → has_tag t (updated_by deps second plain_wallet) ≡ (
            has_tag t plain_wallet
            || any (λ x. x === t) (WalletTagName.found_iterating_blocks ∷ [])))
unfolding checksumed to_lower_case
at_once-loses_example =
    at_once-loses deps (λ m s. refl) (tagged WalletTagName.found_with_searcher)
      (tagged WalletTagName.found_iterating_blocks) "0xa" plain_wallet known refl refl refl refl
      (some plain_wallet) (some plain_wallet)
      (some (updated_by deps (tagged WalletTagName.found_with_searcher) plain_wallet))
      (some (updated_by deps (tagged WalletTagName.found_iterating_blocks) plain_wallet)) refl refl
      refl refl
