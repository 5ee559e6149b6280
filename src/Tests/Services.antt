-- ===== src/Tests/Services.antt =====
-- Runs of the repository with its cache, and of the price service.
use block_listener.Base.{
  ℕ, apart, String, ◌≡◌, refl, ap, [], ◌∷◌, Option, none, some, arith, ◌===◌, string_eq,
  if◌then◌else◌, ◌+◌, sym, ◌∙◌, inl, inr, Bool-cases, eq_iff,
}
use text.Mathlib.TextLemmas.{append_cancel_left}
use block_listener.Base.Task.{returns, state_of}
use block_listener.Values.{BlockchainId}
use block_listener.Repository.{Stores, Backend, cache_key, find_one, save}
use block_listener.Repository.Reads.{Keeps, IsCoherent, read_back, answered, find_one-IsCoherent}
use block_listener.Repository.Stale.{find_one-save_stale}
use block_listener.Price.{Deps}

-- A value is its name and its amount, which JSON makes a hundred more.
abbrev Value : Type 0
Value = String × ℕ

-- A collection of one value, and a cache that keeps every entry, as a function.
abbrev wallets : Backend (Option Value) (String → Option Value) String Value
wallets = record {
  collection_name = "wallets";
  id_values = λ id. id ∷ [];
  props_values = λ v. v.0 ∷ "whale" ∷ [];
  find_by_id = λ id m. elim m [ none ↦ none | some v ↦ if v.0 === id then some v else none ];
  find_by_entity = λ v m. m;
  upsert = λ v m. some v;
  with_id = λ v stored. v;
  as_read = λ v. (v.0, v.1 + 100);
  cache_get = λ key c. c key;
  cache_set = λ key v c. λ j. if key === j then some (v.0, v.1 + 100) else c j;
}

wallets-Keeps : Keeps wallets
wallets-Keeps k j v c = refl

abbrev cold : Stores (Option Value) (String → Option Value)
cold = record { collection = some ("0xa", 1); cache = λ j. none }

one_key :
    (i j : String)
    → cache_key wallets (i ∷ []) ≡ cache_key wallets (j ∷ [])
    → (m : Option Value) → wallets.find_by_id i m ≡ wallets.find_by_id j m
unfolding cache_key
one_key i j same m =
    ap (λ k. wallets.find_by_id k m)
      (append_cancel_left "." i j
        (append_cancel_left "wallets" _ _ (append_cancel_left "repo.cache." _ _ same)))

-- The collection and a cache that has the value as JSON.
abbrev read_before : Stores (Option Value) (String → Option Value)
read_before = record cold {
  cache = λ j. if cache_key wallets ("0xa" ∷ []) === j then some ("0xa", 101) else none;
}

read_before-IsCoherent : IsCoherent wallets read_before
read_before-IsCoherent id v hit =
    elim (Bool-cases (cache_key wallets ("0xa" ∷ []) === cache_key wallets (id ∷ []))) [
      | inl same ↦
          ap (read_back wallets) (
            sym (
              one_key "0xa" id
                ((eq_iff (cache_key wallets ("0xa" ∷ [])) (cache_key wallets (id ∷ []))).0 same)
                (some ("0xa", 1))))
          ∙ ground (arith, same, hit)
      | inr other ↦ ground (arith, other, hit)
    ]

find_one-IsCoherent_example :
    (t : Stores (Option Value) (String → Option Value)) × (find_one wallets "0xa" read_before
      ≡ returns (answered wallets "0xa" read_before) t)
    × (t.collection ≡ some ("0xa", 1))
    × IsCoherent wallets t
find_one-IsCoherent_example =
    find_one-IsCoherent wallets wallets-Keeps one_key "0xa" read_before read_before-IsCoherent

answered_as_json : answered wallets "0xa" read_before ≡ some ("0xa", 101)
unfolding cache_key
answered_as_json = refl

abbrev warm : Stores (Option Value) (String → Option Value)
warm = record cold { cache = λ j. some ("0xa", 1) }

find_one-save_stale_example :
    let t = state_of (save wallets ("0xa", 2) warm) in
    (t.collection ≡ some ("0xa", 2)) × (find_one wallets "0xa" t ≡ returns (some ("0xa", 1)) t)
unfolding cache_key
find_one-save_stale_example =
    find_one-save_stale wallets wallets-Keeps "0xa" ("0xa", 1) ("0xa", 2) warm refl
      (apart "repo.cache.wallets.0xa_whale" "repo.cache.wallets.0xa" refl)

-- A cache of prices by time, and an API that answers with the price of the blockchain.
abbrev prices : Deps (ℕ → Option ℕ) ℕ
prices = record {
  cache_get = λ k s. s k;
  cache_set = λ k p s. λ j. some p;
  fetch = λ b from to s. elim b [
    | BlockchainId.ethereum ↦ returns (some 3000) s
    | BlockchainId.polygon ↦ returns (some 1) s
    | BlockchainId.binance ↦ returns (some 400) s
  ];
  multiplied_by = λ p a. p;
}
