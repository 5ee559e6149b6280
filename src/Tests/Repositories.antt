-- ===== src/Tests/Repositories.antt =====
-- Runs of the repositories of wallets.
use block_listener.Base.{
  String, Bool, true, false, ◌&&◌, ◌===◌, string_eq, eq_iff, find, ◌≡◌, refl, ap, List, [], ◌∷◌,
  Option, none, some, inl, inr, Bool-cases, if◌then◌else◌, arith,
}
use block_listener.Base.Task.{returns, ◌>>=◌}
use block_listener.Values.{blockchain_text, BlockchainId, WalletType}
use block_listener.Entities.Wallet.{WalletProps, Wallet}
use block_listener.Utils.Address.{to_lower_case, checksumed}
use block_listener.Repository.Queries.{
  Condition, has_text, has_flag, has_one_of, Filter, Collection, Model, wallet_of, match_criteria,
  find_wallet, save_wallet,
}
use block_listener.Repository.Queries.Found.{IsStore, HasFields, find_wallet-save_wallet}

abbrev wallet : Wallet
wallet = record {
  props = record {
    blockchain = BlockchainId.ethereum;
    address = "0xA";
    alias = none;
    type = WalletType.unknown_wallet;
    tags = [];
    relations = [];
    created_at = 1;
  };
  id = none;
}

-- A collection as the list of its documents, over the conditions that the wallets are found by.
abbrev holds : Condition → WalletProps → Bool
holds (has_text field text) p =
    if field === "address"
    then p.address === text
    else (field === "blockchain") && (blockchain_text p.blockchain === text)
holds (has_flag field flag) p = false
holds (has_one_of field texts) p = false

abbrev matches : Filter → WalletProps → Bool
matches [] p = true
matches (c ∷ f) p = holds c p && matches f p

abbrev alias_or : Option String → Option String → Option String
alias_or none old = old
alias_or (some alias) old = some alias

abbrev with_fields : WalletProps → WalletProps → WalletProps
with_fields item old = record item { alias = alias_or item.alias old.alias }

abbrev Documents : Type 0
Documents = List (Model WalletProps)

abbrev update_one : Filter → WalletProps → Documents → Documents
update_one f item [] = record { props = item; object_id = "new" } ∷ []
update_one f item (d ∷ ds) =
    if matches f d.props
    then record d { props = with_fields item d.props } ∷ ds
    else d ∷ update_one f item ds

abbrev documents : Collection Documents WalletProps
documents = record {
  find_one = λ f m. find (λ d. matches f d.props) m;
  find = λ f m. [];
  count_documents = λ f m. 0;
  upsert = update_one;
}

criteria_match :
    (v : WalletProps) (p : WalletProps)
    → p.blockchain ≡ v.blockchain
    → p.address ≡ v.address
    → matches (match_criteria v.blockchain v.address) p ≡ true
criteria_match v p on at = ground (
  arith,
  eq_iff p.address v.address,
  eq_iff (blockchain_text p.blockchain) (blockchain_text v.blockchain),
  ap blockchain_text on,
  on,
  at,
)

with_fields-HasFields : (v old : WalletProps) → HasFields v (with_fields v old)
with_fields-HasFields v old =
    (refl, refl, refl, refl, refl, refl, λ alias has. ap (λ a. alias_or a old.alias) has)

update_one-found :
    (v : WalletProps) (m : Documents)
    → let f = match_criteria v.blockchain v.address in
      (d : Model WalletProps) × (find (λ e. matches f e.props) (update_one f v m) ≡ some d)
      × HasFields v d.props
update_one-found v [] = (
  record { props = v; object_id = "new" },
  ground (arith, criteria_match v v refl refl),
  (refl, refl, refl, refl, refl, refl, λ alias has. has),
)
update_one-found v (d ∷ ds) =
    let f = match_criteria v.blockchain v.address in
    elim (Bool-cases (matches f d.props)) [
      | inl here ↦
          let stored = with_fields v d.props in
          (
            record d { props = stored },
            ground (arith, here, criteria_match v stored refl refl),
            with_fields-HasFields v d.props,
          )
      | inr later ↦
          let (e, found, has) = update_one-found v ds in (e, ground (arith, later, found), has)
    ]

matches-any_order :
    (p q : Condition) (m : Documents)
    → find (λ d. matches (p ∷ q ∷ []) d.props) m ≡ find (λ d. matches (q ∷ p ∷ []) d.props) m
matches-any_order p q [] = refl
matches-any_order p q (d ∷ ds) = ground (arith, matches-any_order p q ds)

documents-IsStore : IsStore documents
documents-IsStore = record { found_after = update_one-found; any_order = matches-any_order }

-- A wallet at another address, and the wallet with an alias.
abbrev stored : Documents
stored =
    record { props = record (wallet.props) { address = "0xC" }; object_id = "1" }
    ∷ record { props = record (wallet.props) { alias = some "old" }; object_id = "2" }
    ∷ []

find_wallet-save_wallet_example :
    (d : Model WalletProps) × ((save_wallet documents wallet >>= λ _.
    find_wallet (λ a. some "0xA") documents "0Xa" BlockchainId.ethereum)
        stored
      ≡ returns
          (some (wallet_of d))
          (update_one (match_criteria BlockchainId.ethereum "0xA") wallet.props stored))
    × HasFields wallet.props d.props
unfolding to_lower_case checksumed
find_wallet-save_wallet_example =
    find_wallet-save_wallet (λ a. some "0xA") documents wallet "0xA" stored documents-IsStore refl
      "0Xa" refl

-- The wallet that is found still has its alias.
alias_kept :
    (save_wallet documents wallet >>= λ _.
    find_wallet (λ a. some "0xA") documents "0Xa" BlockchainId.ethereum)
      stored
    ≡ returns
        (some (record { props = record (wallet.props) { alias = some "old" }; id = some "2" }))
        stored
unfolding find_wallet save_wallet checksumed
alias_kept = refl
