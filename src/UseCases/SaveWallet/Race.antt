-- ===== src/UseCases/SaveWallet/Race.antt =====
-- SaveWallet.ts: messages about one wallet, one after the other and at the same time. The queue
-- gives a consumer twenty messages at once, whose handlers take turns at every `await`.
use block_listener.Base.{
  String, ◌≡◌, ap, ◌∙◌, false, ◌||◌, ◌===◌, any, List, [], ◌∷◌, Option, none, some, get_or, arith,
}
use block_listener.Base.Task.{returns, Task, pure, ◌>>=◌, ◌>>◌}
use block_listener.Values.{WalletType, WalletTagName, tag_eq}
use block_listener.Entities.Wallet.{Wallet}
use block_listener.Entities.Wallet.Merge.{has_tag}
use block_listener.Messages.{Message, WalletDiscoveredPayload, wallet_updated}
use block_listener.Utils.Address.{checksumed}
use block_listener.App.{App, Effect, sent, stored_wallet, on_db}
use block_listener.UseCases.SaveWallet.{
  Deps, resolve_ens_name, create_wallet, update_wallet, execute,
}
use block_listener.UseCases.SaveWallet.Flow.{updated_by, execute_existing}
use block_listener.UseCases.SaveWallet.Result.{updated_lem}

-- What the update of a wallet stores and announces.
abbrev pub updated_effects : Wallet → List Effect → List Effect
updated_effects v es =
    sent (wallet_updated v.props.blockchain v.props.address) ∷ stored_wallet v ∷ es

module _ {D : Type 0} (deps : Deps D) where
  open deps use {get_address, is_ens_name, find_one, save, publish_error}

  -- `execute` up to the answer of `findOne`, and from there on.
  unfoldable pub find_existing : WalletDiscoveredPayload → Task (App D) (String × Option Wallet)
  unfolding resolve_ens_name
  find_existing p = do
    address ← resolve_ens_name deps p.blockchain p.address
    existing ← on_db (find_one address p.blockchain)
    pure (address, existing)

  unfoldable pub save_found :
      WalletDiscoveredPayload → String × Option Wallet → Task (App D) (Unit {0})
  unfolding create_wallet update_wallet
  save_found p (address, existing) =
      let type = get_or p.type WalletType.unknown_wallet in
      let tags = get_or p.tags [] in
      let relations = get_or p.relations [] in
      elim existing [
        | some wallet ↦ update_wallet deps wallet tags relations (some type) p.alias
        | none ↦ create_wallet deps p.alias address p.blockchain tags relations (some type)
      ]

  execute_lem :
      (p : WalletDiscoveredPayload) (w : App D)
      → execute deps p w ≡ (find_existing p >>= save_found p) w
  unfolding execute find_existing save_found
  execute_lem p w = ground arith

  -- Two handlers that have both read before the first of them saves.
  unfoldable pub at_once :
      WalletDiscoveredPayload → WalletDiscoveredPayload → Task (App D) (Unit {0})
  unfolding find_existing save_found
  at_once p q = do
    found ← find_existing p
    found' ← find_existing q
    save_found p found
    save_found q found'

  module _ (accepts : (m : Message) (s : D) → publish_error m s ≡ none) where
    find_existing-returns :
        (p : WalletDiscoveredPayload) (a : String) (o : Option Wallet) (w : App D) (d : D)
        → is_ens_name p.address ≡ false
        → checksumed get_address (some p.address) ≡ some a
        → find_one a p.blockchain w.db ≡ returns o d
        → find_existing p w ≡ returns (a, o) (record w { db = d })
    unfolding find_existing
    find_existing-returns p a o w d plain valid found = ground arith

    save_found-returns :
        (p : WalletDiscoveredPayload) (a : String) (wallet : Wallet) (w : App D) (d : D)
        → save (updated_by deps p wallet) w.db ≡ returns tt d
        → save_found p (a, some wallet) w
          ≡ returns tt
              (record { db = d; effects = updated_effects (updated_by deps p wallet) w.effects })
    unfolding save_found
    save_found-returns p a wallet w d saved = ground (
      arith,
      accepts
          (wallet_updated (updated_by deps p wallet).props.blockchain
            (updated_by deps p wallet).props.address)
          d,
    )

    module _ (p q : WalletDiscoveredPayload) (a : String) (wallet : Wallet) (w : App D)
        (plain : is_ens_name p.address ≡ false) (plain' : is_ens_name q.address ≡ false)
        (valid : checksumed get_address (some p.address) ≡ some a)
        (valid' : checksumed get_address (some q.address) ≡ some a) where
      -- If two messages about a stored wallet are handled at once, so that both handlers have read
      -- it before either saves, and the database answers, both updates are announced, but what is
      -- stored last is the wallet updated by the second message alone: it has the tags that the
      -- wallet had and those of the second message, and none of the first one's besides.
      pub at_once-loses :
          (d₁ d₂ d₃ d₄ : D)
          → find_one a p.blockchain w.db ≡ returns (some wallet) d₁
          → find_one a q.blockchain d₁ ≡ returns (some wallet) d₂
          → save (updated_by deps p wallet) d₂ ≡ returns tt d₃
          → save (updated_by deps q wallet) d₃ ≡ returns tt d₄
          → (at_once p q w
              ≡ returns tt (record {
                db = d₄;
                effects =
                    updated_effects
                      (updated_by deps q wallet)
                      (updated_effects (updated_by deps p wallet) w.effects);
              }))
            × ((t : WalletTagName)
                → has_tag t (updated_by deps q wallet)
                  ≡ (has_tag t wallet || any (λ x. x === t) (get_or q.tags [])))
      unfolding at_once
      at_once-loses d₁ d₂ d₃ d₄ found found' saved saved' =
          let w₁ = record w { db = d₁ } in
          let w₂ = record w { db = d₂ } in
          let w₃ = record w {
            db = d₃;
            effects = updated_effects (updated_by deps p wallet) w.effects;
          } in
          (
            ground (
              arith,
              find_existing-returns p a (some wallet) w d₁ plain valid found,
              find_existing-returns q a (some wallet) w₁ d₂ plain' valid' found',
              save_found-returns p a wallet w₂ d₃ saved,
              save_found-returns q a wallet w₃ d₄ saved',
            ),
            (updated_lem deps wallet (get_or q.tags []) (get_or q.relations [])
                (some (get_or q.type WalletType.unknown_wallet)) q.alias).0,
          )

      -- If they are handled one after the other, and the second reads what the first has stored,
      -- the wallet that is stored last has the tags that it had and those of both messages.
      pub execute-execute :
          (d₁ d₂ d₃ d₄ : D)
          → find_one a p.blockchain w.db ≡ returns (some wallet) d₁
          → save (updated_by deps p wallet) d₁ ≡ returns tt d₂
          → find_one a q.blockchain d₂ ≡ returns (some (updated_by deps p wallet)) d₃
          → save (updated_by deps q (updated_by deps p wallet)) d₃ ≡ returns tt d₄
          → let v = updated_by deps p wallet in
            ((execute deps p >> execute deps q) w
              ≡ returns tt (record {
                db = d₄;
                effects = updated_effects (updated_by deps q v) (updated_effects v w.effects);
              }))
            × ((t : WalletTagName)
                → has_tag t (updated_by deps q v) ≡ (
                    (has_tag t wallet || any (λ x. x === t) (get_or p.tags []))
                    || any (λ x. x === t) (get_or q.tags [])))
      execute-execute d₁ d₂ d₃ d₄ found saved found' saved' =
          let v = updated_by deps p wallet in
          let w₂ = record w { db = d₂; effects = updated_effects v w.effects } in
          (
            ground (
              arith,
              execute_existing deps p w a d₁ plain valid accepts wallet d₂ found saved,
              execute_existing deps q w₂ a d₃ plain' valid' accepts v d₄ found' saved',
            ),
            λ t.
                (updated_lem deps v (get_or q.tags []) (get_or q.relations [])
                    (some (get_or q.type WalletType.unknown_wallet)) q.alias).0
                  t
                ∙ ap (λ b. b || any (λ x. x === t) (get_or q.tags []))
                    ((updated_lem deps wallet (get_or p.tags []) (get_or p.relations [])
                        (some (get_or p.type WalletType.unknown_wallet)) p.alias).0
                      t),
          )
