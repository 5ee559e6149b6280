-- ===== src/UseCases/SaveWallet/Flow.antt =====
-- SaveWallet.ts: what is stored and sent, and in which order.
use block_listener.Base.{
  String, ◌≡◌, ◌⊎◌, false, List, [], ◌∷◌, map, Option, none, some, get_or, arith,
}
use block_listener.Base.Task.{returns, state_of}
use block_listener.Values.{WalletType, WalletTagName}
use block_listener.Entities.Wallet.{Wallet, NewRelation, by_name, add_tag, add_relation, add_each}
use block_listener.Messages.{Message, WalletDiscoveredPayload, wallet_saved, wallet_updated}
use block_listener.Utils.Address.{checksumed}
use block_listener.App.{App, sent, stored_wallet}
use block_listener.App.Publish.{sent_each, promise_all-publish}
use block_listener.UseCases.SaveWallet.{Deps, wallet_tx, updated, update_wallet, execute}

module _ {D : Type 0} (deps : Deps D) where
  open deps use {get_address, is_ens_name, find_one, save, create, wallet_txs, publish_error, now}

  -- However the update of a wallet ends, the update is announced only after the wallet is stored.
  pub update_wallet-stores_first :
      (wallet : Wallet) (tags : List WalletTagName) (relations : List NewRelation)
      (type : Option WalletType) (alias : Option String) (w : App D)
      → let v = updated deps wallet tags relations type alias in
        let after = update_wallet deps wallet tags relations type alias w in
        ((state_of after).effects ≡ w.effects)
        ⊎ ((state_of after).effects ≡ stored_wallet v ∷ w.effects)
        ⊎ ((state_of after).effects
            ≡ sent (wallet_updated v.props.blockchain v.props.address)
              ∷ stored_wallet v
              ∷ w.effects)
  unfolding update_wallet
  update_wallet-stores_first wallet tags relations type alias w = ground arith

  -- What the message makes of a wallet that is known, and of a new one.
  abbrev pub updated_by : WalletDiscoveredPayload → Wallet → Wallet
  updated_by p wallet =
      updated deps wallet (get_or p.tags []) (get_or p.relations [])
        (some (get_or p.type WalletType.unknown_wallet)) p.alias

  abbrev pub created_with : WalletDiscoveredPayload → Wallet → Wallet
  created_with p wallet =
      add_each (add_relation now) (get_or p.relations [])
        (add_each (add_tag now) (map by_name (get_or p.tags [])) wallet)

  module _ (p : WalletDiscoveredPayload) (w : App D) (a : String) (d : D)
      (plain : is_ens_name p.address ≡ false)
      (valid : checksumed get_address (some p.address) ≡ some a)
      (accepts : (m : Message) (s : D) → publish_error m s ≡ none) where
    -- A message about a wallet that is known stores the updated wallet and announces the update.
    pub execute_existing :
        (wallet : Wallet) (d' : D)
        → find_one a p.blockchain w.db ≡ returns (some wallet) d
        → save (updated_by p wallet) d ≡ returns tt d'
        → let v = updated_by p wallet in
          execute deps p w
          ≡ returns tt (record {
            db = d';
            effects =
                sent (wallet_updated v.props.blockchain v.props.address)
                ∷ stored_wallet v
                ∷ w.effects;
          })
    unfolding execute
    execute_existing wallet d' found saved = ground (
      arith,
      accepts
          (wallet_updated (updated_by p wallet).props.blockchain
            (updated_by p wallet).props.address)
          d',
    )

    -- A message about a new wallet announces the wallet's transactions, then stores the wallet with
    -- the tags and relations of the message, then announces it.
    pub execute_new :
        (created : Wallet) (hashes : List String) (d₁ d₂ : D)
        → find_one a p.blockchain w.db ≡ returns none d
        → create now p.alias a p.blockchain (some (get_or p.type WalletType.unknown_wallet))
          ≡ some created
        → wallet_txs p.blockchain a d ≡ returns hashes d₁
        → save (created_with p created) d₁ ≡ returns tt d₂
        → execute deps p w
          ≡ returns tt (record {
            db = d₂;
            effects =
                sent (wallet_saved p.blockchain a)
                ∷ stored_wallet (created_with p created)
                ∷ sent_each (wallet_tx p.blockchain) hashes w.effects;
          })
    unfolding execute
    execute_new created hashes d₁ d₂ missing made txs saved = ground (
      arith,
      accepts (wallet_saved p.blockchain a) d₂,
      promise_all-publish publish_error accepts (wallet_tx p.blockchain) hashes
          (record w { db = d₁ }),
    )
