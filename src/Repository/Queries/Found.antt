-- ===== src/Repository/Queries/Found.antt =====
-- WalletRepository.ts over MongoBaseRepository.ts: a saved wallet is found.
use block_listener.Base.{String, [], ◌∷◌, Option, some, ◌≡◌, ◌∙◌, ap, arith}
use block_listener.Base.Task.{returns, ◌>>=◌}
use block_listener.Values.{blockchain_text}
use block_listener.Entities.Wallet.{WalletProps, Wallet}
use block_listener.Utils.Address.{checksumed, to_lower_case}
use block_listener.Repository.Queries.{
  Condition, has_text, Model, Collection, wallet_of, match_criteria, find_wallet, save_wallet,
}

-- What `$set` leaves in a document: every field that the item has, with its value. Nothing is said of
-- an alias that the item does not have.
abbrev pub HasFields : WalletProps → WalletProps → Type 0
HasFields item stored =
    (stored.blockchain ≡ item.blockchain)
    × (stored.address ≡ item.address)
    × (stored.type ≡ item.type)
    × (stored.tags ≡ item.tags)
    × (stored.relations ≡ item.relations)
    × (stored.created_at ≡ item.created_at)
    × ((alias : String) → item.alias ≡ some alias → stored.alias ≡ some alias)

-- What MongoDB documents of `updateOne` with `$set` and `upsert`: the document that the filter of a
-- wallet's blockchain and address finds, or a new one, has the fields of the wallet, and the filter
-- finds it afterwards. The order of a filter's conditions plays no part.
pub record IsStore {M : Type 0} (c : Collection M WalletProps) : Type 0 where
  pub found_after :
      (v : WalletProps) (m : M)
      → let f = match_criteria v.blockchain v.address in
        (d : Model WalletProps) × (c.find_one f (c.upsert f v m) ≡ some d) × HasFields v d.props
  pub any_order : (p q : Condition) (m : M) → c.find_one (p ∷ q ∷ []) m ≡ c.find_one (q ∷ p ∷ []) m

-- A wallet that was saved with a checked address is found by `findWallet` by every text that the
-- address is written as, in any case of the letters, with the properties that the saved wallet has;
-- nothing is said of the alias if it has none.
pub find_wallet-save_wallet :
    {M : Type 0} (get_address : String → Option String) (c : Collection M WalletProps) (w : Wallet)
    (written : String) (m : M)
    → IsStore c
    → checksumed get_address (some written) ≡ some w.props.address
    → (other : String) → to_lower_case other ≡ to_lower_case written
    → (d : Model WalletProps) × ((save_wallet c w >>= λ _.
            find_wallet get_address c other w.props.blockchain)
          m
        ≡ returns
            (some (wallet_of d))
            (c.upsert (match_criteria w.props.blockchain w.props.address) w.props m))
      × HasFields w.props d.props
unfolding find_wallet save_wallet checksumed
find_wallet-save_wallet get_address c w written m store checked other same =
    let criteria = match_criteria w.props.blockchain w.props.address in
    let (d, found, has) = store.found_after w.props m in
    let valid : checksumed get_address (some other) ≡ some w.props.address =
      ap get_address same ∙ checked in
    let answer =
      store.any_order (has_text "address" w.props.address)
        (has_text "blockchain" (blockchain_text w.props.blockchain)) (c.upsert criteria w.props m)
      ∙ found in
    (d, ground (arith, valid, answer), has)
