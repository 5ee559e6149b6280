-- ===== src/Cache/Expiry.antt =====
-- RedisCache.ts: how long a value that was set is got.
use block_listener.Base.{
  ℕ, ◌≤◌, String, true, false, Option, none, some, if◌then◌else◌, ltb, ◌≡◌, ◌∙◌, subst, ap, ◌===◌,
  nat_eq, string_eq, inl, inr, Bool-cases, arith,
}
use block_listener.Base.Task.{returns, Outcome-cases}
use block_listener.Cache.{
  ICache, Redis, ttl_seconds_of, retry_strategy, redis_cache, got, set_serialized,
}

-- A cache over a world in which seconds pass: a value that was set is got as long as fewer seconds
-- have passed than it was set for, and then no more.
abbrev pub Keeps :
    {D V : Type 0} → ICache D V → (ℕ → D → D) → (Option ℕ → ℕ) → (V → Type 0) → Type 0
Keeps {D} {V} cache after seconds Storable =
    (key : String) (value : V) (ttl : Option ℕ) (elapsed : ℕ) (s t : D)
    → Storable value
    → cache.set key value ttl s ≡ returns true t
    → cache.get key (after elapsed t)
      ≡ returns (if ltb elapsed (seconds ttl) then some value else none) (after elapsed t)

-- The delay between attempts to connect is a minute at most, and no longer for an earlier attempt.
pub retry_strategy-le : (attempt : ℕ) → retry_strategy attempt ≤ 60_000
unfolding retry_strategy
retry_strategy-le attempt = ground arith

module _ {D V : Type 0} (redis : Redis D V) (after : ℕ → D → D) where
  -- Redis with `EX`.
  abbrev pub Expires : Type 0
  Expires =
      (key text : String) (ttl elapsed : ℕ) (s t : D)
      → redis.set_key key text ttl s ≡ returns tt t
      → redis.get_key key (after elapsed t)
        ≡ returns (if ltb elapsed ttl then some text else none) (after elapsed t)

  -- JSON gives the value back.
  abbrev pub IsJson : V → Type 0
  IsJson value =
      (text : String) × (redis.stringify value ≡ some text)
      × (redis.parse text ≡ some value)
      × (text === "" ≡ false)

  was_set-text :
      (key text : String) (ttl : Option ℕ) (s t : D)
      → set_serialized redis key (some text) ttl s ≡ returns true t
      → redis.set_key key text (ttl_seconds_of ttl) s ≡ returns tt t
  was_set-text key text ttl s t set =
      elim (Outcome-cases (redis.set_key key text (ttl_seconds_of ttl) s)) [
        | inl (x, u, done) ↦ ground (arith, done, set)
        | inr (e, u, failed) ↦ ground (arith, failed, set)
      ]

  pub redis_cache-get-set :
      (expires : Expires) (key : String) (value : V) (ttl : Option ℕ) (elapsed : ℕ) (s t : D)
      → IsJson value
      → (redis_cache redis).set key value ttl s ≡ returns true t
      → (redis_cache redis).get key (after elapsed t)
        ≡ returns (if ltb elapsed (ttl_seconds_of ttl) then some value else none) (after elapsed t)
  redis_cache-get-set expires key value ttl elapsed s t (text, written, read, full) set =
      let stored =
        was_set-text key text ttl s t
          (subst (λ o. set_serialized redis key o ttl s ≡ returns true t) written set) in
      ap (got redis) (expires key text (ttl_seconds_of ttl) elapsed s t stored)
      ∙ elim (Bool-cases (ltb elapsed (ttl_seconds_of ttl))) [
        | inl young ↦ ground (arith, young, read, full)
        | inr old ↦ ground (arith, old)
      ]

  pub redis_cache-Keeps : Expires → Keeps (redis_cache redis) after ttl_seconds_of IsJson
  redis_cache-Keeps expires = redis_cache-get-set expires
