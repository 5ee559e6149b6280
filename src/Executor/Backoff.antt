-- ===== src/Executor/Backoff.antt =====
-- The delays before a retry, in milliseconds.
use block_listener.Base.{ℕ, zero, suc, ◌+◌, ◌*◌, ◌/◌, ◌^◌, if◌then◌else◌, leb, nat_beq}

-- The integer square root by binary digits, on fuel; `isqrt n` has enough of it.
isqrt_from : ℕ → ℕ → ℕ
isqrt_from zero n = 0
isqrt_from (suc fuel) n =
    let rest = isqrt_from fuel (n / 4) in
    let root = if leb ((2 * rest + 1) * (2 * rest + 1)) n then 2 * rest + 1 else 2 * rest in
    if nat_beq n 0 then 0 else root

unfoldable pub isqrt : ℕ → ℕ
unfolding isqrt_from
isqrt n = isqrt_from n n

-- Math.floor(2 ** (1.5 * retry) * 1000) + 5000 in exact arithmetic:
-- 2 ** (1.5 * retry) * 1000 is the square root of 8 ** retry * 1000 ** 2.
unfoldable pub backoff_default_strategy : ℕ → ℕ
unfolding isqrt
backoff_default_strategy retry = isqrt (8 ^ retry * 1_000_000) + 5_000

abbrev pub min_delay_in_s : ℕ
min_delay_in_s = 60

-- The strategy of ProcessTx.ts and SaveTxOfInterest.ts.
unfoldable pub backoff_strategy : ℕ → ℕ
backoff_strategy retry = (2 ^ retry + min_delay_in_s) * 1_000
