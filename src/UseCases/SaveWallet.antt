-- ===== src/UseCases/SaveWallet.antt =====
-- App/UseCases/Wallets/SaveWallet.ts
pub mod Result
pub mod Flow
pub mod Race
use block_listener.Base.{
  ℕ, String, Bool, not, List, [], ◌∷◌, map, Option, none, some, get_or, if◌then◌else◌,
}
use block_listener.Base.Task.{
  Thrown, Outcome, returns, throws, Task, pure, throw, ◌>>=◌, ◌>>◌, promise_all, or_fail,
}
use block_listener.Values.{BlockchainId, WalletType, WalletTagName}
use block_listener.Entities.Wallet.{
  Wallet, NewRelation, TagArg, by_name, add_tag, add_relation, set_type, set_alias, add_each,
}
use block_listener.Entities.Tx.{validation_error}
use block_listener.Messages.{
  Message, TxDiscoveredPayload, WalletDiscoveredPayload, tx_discovered, wallet_saved,
  wallet_updated,
}
use block_listener.Utils.Address.{checksumed, invalid_address}
use block_listener.App.{App, Effect, stored_wallet, on_db, store, publish}
use block_listener.Base.{true, false, ◌===◌, string_eq}

-- The parts that `SaveWallet` is injected with, and the library calls that it makes.
pub record Deps (D : Type 0) : Type 0 where
  pub get_address : String → Option String
  -- `address.endsWith(".eth")` and `provider.resolveName`
  pub is_ens_name : String → Bool
  pub resolve_name : BlockchainId → String → Task D (Option String)
  -- `walletRepository.findOne` and `save`
  pub find_one : String → BlockchainId → Task D (Option Wallet)
  pub save : Wallet → Task D (Unit {0})
  -- `Wallet.create`, `none` where it throws
  pub create : ℕ → Option String → String → BlockchainId → Option WalletType → Option Wallet
  -- the hashes of `blockchainService.getWalletTxsWithMetadata`
  pub wallet_txs : BlockchainId → String → Task D (List String)
  pub publish_error : Message → D → Option Thrown
  pub now : ℕ

abbrev pub ens_name_not_resolved : Thrown
ens_name_not_resolved = record {
  is_direct_to_dead = false;
  name = "EnsNameNotResolvedError";
  message = "";
  stack = "";
}

abbrev pub wallet_tx : BlockchainId → String → Message
wallet_tx blockchain hash = tx_discovered (record {
  blockchain = blockchain;
  hash = hash;
  save_unknown = some true;
  save_destination_address = some true;
  tx_res = none;
  tx_receipt = none;
  block = none;
})

abbrev pub typed : Option WalletType → Wallet → Wallet
typed none w = w
typed (some type) w = set_type type w

abbrev pub aliased : Option String → Wallet → Wallet
aliased none w = w
aliased (some alias) w = set_alias alias w

module _ {D : Type 0} (deps : Deps D) where
  open deps use {
    get_address, is_ens_name, resolve_name, find_one, save, create, wallet_txs, publish_error, now,
  }

  abbrev pub resolved : Option String → Task (App D) String
  resolved none = throw ens_name_not_resolved
  resolved (some a) =
      if a === ""
      then throw ens_name_not_resolved
      else or_fail invalid_address (checksumed get_address (some a))

  unfoldable pub resolve_ens_name : BlockchainId → String → Task (App D) String
  resolve_ens_name blockchain address =
      if not (is_ens_name address)
      then or_fail invalid_address (checksumed get_address (some address))
      else (on_db (resolve_name blockchain address) >>= resolved)

  unfoldable pub find_and_publish_wallet_txs : BlockchainId → String → Task (App D) (Unit {0})
  find_and_publish_wallet_txs blockchain address = do
    txs ← on_db (wallet_txs blockchain address)
    promise_all (λ hash. publish publish_error (wallet_tx blockchain hash)) txs
    pure tt

  -- The wallet with the relations and the tags of the message.
  abbrev pub merged : List NewRelation → List WalletTagName → Wallet → Wallet
  merged relations tags w =
      add_each (add_tag now) (map by_name tags) (add_each (add_relation now) relations w)

  unfoldable pub create_wallet :
      Option String
      → String
      → BlockchainId
      → List WalletTagName
      → List NewRelation
      → Option WalletType
      → Task (App D) (Unit {0})
  unfolding find_and_publish_wallet_txs
  create_wallet alias address blockchain tags relations type = do
    created ← or_fail validation_error (create now alias address blockchain type)
    let wallet =
        add_each (add_relation now) relations (add_each (add_tag now) (map by_name tags) created)
    find_and_publish_wallet_txs blockchain address
    store (stored_wallet wallet) (save wallet)
    publish publish_error (wallet_saved blockchain address)

  -- The wallet that `updateWallet` saves.
  unfoldable pub updated :
      Wallet → List WalletTagName → List NewRelation → Option WalletType → Option String → Wallet
  updated wallet tags relations type alias =
      merged relations tags (aliased alias (typed type wallet))

  unfoldable pub update_wallet :
      Wallet
      → List WalletTagName
      → List NewRelation
      → Option WalletType
      → Option String
      → Task (App D) (Unit {0})
  update_wallet wallet tags relations type alias = do
    let w = updated wallet tags relations type alias
    store (stored_wallet w) (save w)
    publish publish_error (wallet_updated w.props.blockchain w.props.address)

  unfoldable pub execute : WalletDiscoveredPayload → Task (App D) (Unit {0})
  unfolding resolve_ens_name create_wallet update_wallet
  execute p = do
    let type = get_or p.type WalletType.unknown_wallet
    let tags = get_or p.tags []
    let relations = get_or p.relations []
    address ← resolve_ens_name p.blockchain p.address
    existing ← on_db (find_one address p.blockchain)
    elim existing [
      | some wallet ↦ update_wallet wallet tags relations (some type) p.alias
      | none ↦ create_wallet p.alias address p.blockchain tags relations (some type)
    ]
