-- ===== src/Price/Shared.antt =====
-- FinnhubApiService.ts: the cache key has the time and not the blockchain.
use block_listener.Base.{ℕ, ◌/◌, ◌≡◌, subst, inl, inr, Option, some, Option-cases, arith}
use block_listener.Base.Task.{returns, Outcome-cases, Task}
use block_listener.Values.{BlockchainId}
use block_listener.Price.Quarter.{same_range_iff}
use block_listener.Price.{
  Deps, get_time_range_for_single_range, get_blockchain_native_token_usd_price, cached_or,
}

module _ {D Price : Type 0} (deps : Deps D Price)
    (keeps : (k : ℕ) (p : Price) (s : D) → deps.cache_get k (deps.cache_set k p s) ≡ some p) where
  -- A price that was given is in the cache afterwards.
  cached_or_lem :
      (from : ℕ) (fetched : Task D (Option Price)) (s s' : D) (price : Price)
      → cached_or deps from fetched (deps.cache_get from s) s ≡ returns price s'
      → deps.cache_get from s' ≡ some price
  cached_or_lem from fetched s s' price h = elim (Option-cases (deps.cache_get from s)) [
    | inr (p, hit) ↦ ground arith
    | inl miss ↦ elim (Outcome-cases (fetched s)) [
      | inr (e, t, failed) ↦ ground arith
      | inl (answer, t, answered) ↦ elim (Option-cases answer) [
        | inl nothing ↦ ground arith
        | inr (p, found) ↦ ground (arith, keeps from p t)
      ]
    ]
  ]

  given_is_cached :
      (b : BlockchainId) (t : ℕ) (s s' : D) (price : Price)
      → get_blockchain_native_token_usd_price deps b t s ≡ returns price s'
      → deps.cache_get (get_time_range_for_single_range t).0 s' ≡ some price
  unfolding get_blockchain_native_token_usd_price
  given_is_cached b t s s' price = cached_or_lem _ _ s s' price

  cached_is_given :
      (c : BlockchainId) (u : ℕ) (s : D) (price : Price)
      → deps.cache_get (get_time_range_for_single_range u).0 s ≡ some price
      → get_blockchain_native_token_usd_price deps c u s ≡ returns price s
  unfolding get_blockchain_native_token_usd_price
  cached_is_given c u s price h = rw h

  -- While the cache keeps it, the price that was given for one blockchain is given for every
  -- blockchain that is asked for in the same quarter of an hour.
  pub price_for_every_blockchain :
      (b c : BlockchainId) (t u : ℕ) (s s' : D) (price : Price)
      → get_blockchain_native_token_usd_price deps b t s ≡ returns price s'
      → t / 900_000 ≡ u / 900_000
      → get_blockchain_native_token_usd_price deps c u s' ≡ returns price s'
  price_for_every_blockchain b c t u s s' price h same = cached_is_given c u s' price (
      subst (λ r. deps.cache_get r.0 s' ≡ some price) ((same_range_iff t u).1 same)
        (given_is_cached b t s s' price h))
