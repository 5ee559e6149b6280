-- ===== src/Cache.antt =====
-- App/Interfaces/ICache.ts, and App/Services/Cache: RedisCache.ts over the client of Redis and JSON,
-- and MemoryCache.ts over NodeCache.
pub mod Expiry
pub mod Flags
pub mod Covalent
use block_listener.Base.{
  ℕ, ◌*◌, ◌^◌, String, Bool, true, false, Option, none, some, if◌then◌else◌, ltb, ◌===◌, nat_eq,
  string_eq, get_or,
}
use block_listener.Base.Task.{Outcome, returns, throws, Task}

-- What the program asks of a cache; a time to live of `none` is one that is left out.
pub record ICache (D V : Type 0) : Type 0 where
  pub get : String → Task D (Option V)
  pub set : String → V → Option ℕ → Task D Bool
  pub has : String → Task D Bool
  pub del : String → Task D (Unit {0})

-- The client of Redis, `JSON.stringify` with `none` where it throws, `JSON.parse` in the same way,
-- and a text as a value.
pub record Redis (D V : Type 0) : Type 0 where
  pub get_key : String → Task D (Option String)
  pub set_key : String → String → ℕ → Task D (Unit {0})
  pub exists : String → Task D ℕ
  pub del_key : String → D → D
  pub stringify : V → Option String
  pub parse : String → Option V
  pub raw : String → V

abbrev pub max_ttl_secs : ℕ
max_ttl_secs = 60 * 24 * 30

abbrev pub max_conn_retry_delay_secs : ℕ
max_conn_retry_delay_secs = 60

abbrev pub default_ttl_secs : ℕ
default_ttl_secs = 120

-- The seconds that an entry is set for.
abbrev pub ttl_seconds_of : Option ℕ → ℕ
ttl_seconds_of ttl_seconds =
    let seconds = get_or ttl_seconds default_ttl_secs in
    if seconds === 0 then max_ttl_secs else seconds

abbrev pub min : ℕ → ℕ → ℕ
min a b = if ltb a b then a else b

unfoldable pub retry_strategy : ℕ → ℕ
retry_strategy attempt =
    let initial_backoff_in_seconds : ℕ = 1 in
    let next_attempt_in_seconds =
      min (2 ^ attempt * initial_backoff_in_seconds) max_conn_retry_delay_secs in
    next_attempt_in_seconds * 1000

module _ {D V : Type 0} (redis : Redis D V) where
  abbrev pub deserialize : String → V
  deserialize raw_value = get_or (redis.parse raw_value) (redis.raw raw_value)

  abbrev pub got : Outcome D (Option String) → Outcome D (Option V)
  got (throws error t) = returns none t
  got (returns none t) = returns none t
  got (returns (some raw_value) t) =
      if raw_value === "" then returns none t else returns (some (deserialize raw_value)) t

  abbrev pub was_set : Outcome D (Unit {0}) → Outcome D Bool
  was_set (throws error t) = returns false t
  was_set (returns _ t) = returns true t

  abbrev pub existed : Outcome D ℕ → Outcome D Bool
  existed (throws error t) = returns false t
  existed (returns reply t) = returns (reply === 1) t

  abbrev pub set_serialized : String → Option String → Option ℕ → Task D Bool
  set_serialized key none ttl_seconds s = returns false s
  set_serialized key (some serialized_value) ttl_seconds s =
      was_set (redis.set_key key serialized_value (ttl_seconds_of ttl_seconds) s)

  abbrev pub redis_cache : ICache D V
  redis_cache = record {
    get = λ key s. got (redis.get_key key s);
    set = λ key value ttl_seconds. set_serialized key (redis.stringify value) ttl_seconds;
    has = λ key s. existed (redis.exists key s);
    del = λ key s. returns tt (redis.del_key key s);
  }

-- `get`, `set`, `has` and `del` of NodeCache, in this order.
module _ {D V : Type 0} (node_get : String → Task D (Option V))
    (node_set : String → V → ℕ → Task D Bool) (node_has : String → Task D Bool)
    (node_del : String → D → D) where
  -- The second look in `get` is for the log.
  abbrev pub memory_cache : ICache D V
  memory_cache = record {
    get = λ key s. elim (node_get key s) [
      | throws e t ↦ throws e t
      | returns value t ↦ elim (node_has key t) [
        | throws e u ↦ throws e u
        | returns hit u ↦ returns value u
      ]
    ];
    set = λ key value ttl_secs. node_set key value (get_or ttl_secs default_ttl_secs);
    has = node_has;
    del = λ key s. returns tt (node_del key s);
  }
