-- ===== src/Price/Quarter.antt =====
-- FinnhubApiService.ts: the quarter of an hour that a price is asked for.
use block_listener.Base.{ℕ, ◌-◌, ◌/◌, ◌%◌, ◌≡◌, ap, ◌↔◌, arith}
use block_listener.Price.{truncated_date, get_time_range_for_single_range}

-- The date is set back to the start of its quarter of an hour.
pub truncated_date_lem : (t : ℕ) → truncated_date t ≡ t - t % 900_000
unfolding truncated_date
truncated_date_lem t = omega arith

pub truncated_date_idem : (t : ℕ) → truncated_date (truncated_date t) ≡ truncated_date t
truncated_date_idem t = omega (arith, truncated_date_lem t, truncated_date_lem (truncated_date t))

range_of_quarter :
    (t u : ℕ)
    → t / 900_000 ≡ u / 900_000
    → get_time_range_for_single_range t ≡ get_time_range_for_single_range u
unfolding get_time_range_for_single_range
range_of_quarter t u h =
    let same : truncated_date t ≡ truncated_date u =
      omega (arith, truncated_date_lem t, truncated_date_lem u) in
    ground arith

quarter_of_range :
    (t u : ℕ)
    → get_time_range_for_single_range t ≡ get_time_range_for_single_range u
    → t / 900_000 ≡ u / 900_000
unfolding get_time_range_for_single_range
quarter_of_range t u h =
    let from : truncated_date t / 1000 ≡ truncated_date u / 1000 = ap (λ r. r.0) h in
    omega (arith, truncated_date_lem t, truncated_date_lem u)

-- Two dates ask for one range exactly if they lie in one quarter of an hour.
pub same_range_iff :
    (t u : ℕ)
    → (get_time_range_for_single_range t ≡ get_time_range_for_single_range u)
      ↔ (t / 900_000 ≡ u / 900_000)
same_range_iff t u = (quarter_of_range t u, range_of_quarter t u)
