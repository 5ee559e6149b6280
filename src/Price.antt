-- ===== src/Price.antt =====
-- App/Services/PriceService/FinnhubApiService.ts. A `Date` is its milliseconds in UTC; what a call
-- does to the date that it is given is part of its result.
pub mod CryptoCompare
pub mod Quarter
pub mod Shared
use block_listener.Base.{ℕ, ◌+◌, ◌-◌, ◌*◌, ◌/◌, ◌%◌, String, Option, none, some, false}
use block_listener.Base.Task.{Thrown, Outcome, returns, throws, Task, ◌>>=◌}
use block_listener.Values.{BlockchainId}

-- `truncateNumberBy` of App/Utils/Numbers.ts
unfoldable pub truncate_number_by : ℕ → ℕ → ℕ
truncate_number_by minutes factor = let multiplier = minutes / factor in multiplier * factor

abbrev pub resolution_in_minutes : ℕ
resolution_in_minutes = 15

abbrev pub get_minutes : ℕ → ℕ
get_minutes t = t / 60_000 % 60

-- `setSeconds(0); setMilliseconds(0)`
abbrev pub clear_seconds : ℕ → ℕ
clear_seconds t = t - t % 60_000

abbrev pub set_minutes : ℕ → ℕ → ℕ
set_minutes minutes t = t - get_minutes t * 60_000 + minutes * 60_000

-- The date after `getTimeRangeForSingleRange`, which sets the date that it is given.
unfoldable pub truncated_date : ℕ → ℕ
unfolding truncate_number_by
truncated_date t =
    let cleared = clear_seconds t in
    set_minutes (truncate_number_by (get_minutes cleared) resolution_in_minutes) cleared

-- `[from, to]`
unfoldable pub get_time_range_for_single_range : ℕ → ℕ × ℕ
unfolding truncated_date
get_time_range_for_single_range t = let from = truncated_date t / 1000 in (from, from + 1)

abbrev pub get_price_error : Thrown
get_price_error = record {
  is_direct_to_dead = false;
  name = "GetPriceError";
  message = "";
  stack = "";
}

-- `cache_get from` and `cache_set from` are the cache at the key `finnhub.price_at.<from>`, for twelve
-- hours, and `fetch` is the first candle that the API answers with, if it is truthy.
pub record Deps (D Price : Type 0) : Type 0 where
  pub cache_get : ℕ → D → Option Price
  pub cache_set : ℕ → Price → D → D
  pub fetch : BlockchainId → ℕ → ℕ → Task D (Option Price)
  pub multiplied_by : Price → String → Price

module _ {D Price : Type 0} (deps : Deps D Price) where
  abbrev pub cached_or : ℕ → Task D (Option Price) → Option Price → Task D Price
  cached_or from fetched (some price) s = returns price s
  cached_or from fetched none s = elim (fetched s) [
    | throws e t ↦ throws e t
    | returns answer t ↦ elim answer [
      | none ↦ throws get_price_error t
      | some price ↦ returns price (deps.cache_set from price t)
    ]
  ]

  unfoldable pub get_blockchain_native_token_usd_price : BlockchainId → ℕ → Task D Price
  get_blockchain_native_token_usd_price blockchain time s =
      let (from, to) = get_time_range_for_single_range time in
      cached_or from (deps.fetch blockchain from to) (deps.cache_get from s) s

  unfoldable pub get_blockchain_native_token_usd_value : BlockchainId → String → ℕ → Task D Price
  get_blockchain_native_token_usd_value blockchain amount time s =
      elim (get_blockchain_native_token_usd_price blockchain time s) [
        | throws e t ↦ throws e t
        | returns price t ↦ returns (deps.multiplied_by price amount) t
      ]
