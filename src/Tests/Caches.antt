-- ===== src/Tests/Caches.antt =====
-- Runs of the cache of Redis and of the feature flags.
use block_listener.Base.{
  Bool-cases, inl, inr, ℕ, ◌-◌, String, ltb, if◌then◌else◌, ◌≡◌, refl, Option, none, some,
  string_eq, arith,
}
use block_listener.Base.Task.{returns}
use block_listener.Cache.{Redis, redis_cache, ttl_seconds_of}
use block_listener.Cache.Expiry.{redis_cache-get-set, redis_cache-Keeps, Expires, IsJson}
use block_listener.Cache.Flags.{FeatureFlagStatus, flag_text, set_flag, get_flag, get_flag-set_flag}

-- A store of one text with the seconds that are left to it.
abbrev Kept : Type 0
Kept = Option (String × ℕ)

abbrev after : ℕ → Kept → Kept
after elapsed kept = elim kept [
  | none ↦ none
  | some entry ↦ if ltb elapsed entry.1 then some (entry.0, entry.1 - elapsed) else none
]

abbrev text_kept : Kept → Option String
text_kept none = none
text_kept (some entry) = some entry.0

abbrev redis : Redis Kept String
redis = record {
  get_key = λ key kept. returns (text_kept kept) kept;
  set_key = λ key text ttl kept. returns tt (some (text, ttl));
  exists = λ key kept. returns 1 kept;
  del_key = λ key kept. none;
  stringify = λ v. some v;
  parse = λ text. some text;
  raw = λ text. text;
}

redis-Expires : Expires redis after
redis-Expires key text ttl elapsed s t set = elim (Bool-cases (ltb elapsed ttl)) [
  | inl young ↦ ground (arith, set, young)
  | inr old ↦ ground (arith, set, old)
]

redis_cache-get-set_example :
    (redis_cache redis).get "k" (after 60 (some ("v", 120)))
    ≡ returns (some "v") (after 60 (some ("v", 120)))
redis_cache-get-set_example =
    redis_cache-get-set redis after redis-Expires "k" "v" none 60 none (some ("v", 120))
      ("v", refl, refl, refl) refl

abbrev NotEmpty : String → Type 0
NotEmpty v = IsJson redis after v

flag_texts :
    (u : FeatureFlagStatus) → NotEmpty (flag_text u) × (some (flag_text u) ≡ some (flag_text u))
flag_texts FeatureFlagStatus.enabled = (("1", refl, refl, refl), refl)
flag_texts FeatureFlagStatus.disabled = (("0", refl, refl, refl), refl)
flag_texts FeatureFlagStatus.undefined_flag = (("U", refl, refl, refl), refl)

-- The flag is gone two minutes after it was set.
get_flag-set_flag_example :
    (t : Kept) × (set_flag
        (redis_cache redis)
        (λ v. v)
        (λ v. some v)
        "f"
        FeatureFlagStatus.enabled
        none
      ≡ returns tt t)
    × (get_flag (redis_cache redis) (λ v. v) (λ v. some v) "f" (after 120 t)
        ≡ returns FeatureFlagStatus.undefined_flag (after 120 t))
get_flag-set_flag_example =
    get_flag-set_flag (redis_cache redis) (λ v. v) (λ v. some v) after ttl_seconds_of NotEmpty
      (redis_cache-Keeps redis after redis-Expires)
      (λ key v ttl s. (some (v, ttl_seconds_of ttl), refl)) flag_texts "f" FeatureFlagStatus.enabled
      120 none
