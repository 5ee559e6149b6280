-- ===== src/Repository/Blocks.antt =====
-- Infrastructure/Repository/BlockRepository.ts: `findLatestBlock`. Heights are texts, and MongoDB
-- sorts them as texts.
use Prim.Native.Char.{code}
use block_listener.Base.{
  ℕ, ◌+◌, ◌-◌, ◌*◌, ◌≤◌, ◌<◌, String, Bool, true, false, List, [], ◌∷◌, Option, none, some,
  if◌then◌else◌, ltb, ◌===◌, nat_eq, ◌≡◌, subst, arith, inl, inr, Bool-cases,
}
use block_listener.Base.Task.{Task, pure, ◌>>=◌}
use block_listener.Entities.Token.{BlockProps}
use block_listener.Values.{BlockchainId}

-- The answer of `find({ blockchain }).sort({ height: -1 }).limit(1).toArray()`.
abbrev pub only_block : List BlockProps → Option BlockProps
only_block [] = none
only_block (b ∷ []) = some b
only_block (b ∷ c ∷ bs) = none

unfoldable pub find_latest_block :
    {D : Type 0}
    → (BlockchainId → Task D (List BlockProps))
    → BlockchainId
    → Task D (Option BlockProps)
find_latest_block find_last blockchain = do res ← find_last blockchain; pure (only_block res)

-- The order of texts by their characters.
abbrev pub text_leb : String → String → Bool
text_leb String.[] t = true
text_leb (String.◌∷◌ c s) String.[] = false
text_leb (String.◌∷◌ c s) (String.◌∷◌ d t) =
    let rest = text_leb s t in
    if ltb (code c) (code d) then true else if code c === code d then rest else false

-- The number that decimal digits write, after those that write the first argument.
abbrev pub decimal : ℕ → String → ℕ
decimal n String.[] = n
decimal n (String.◌∷◌ c s) = decimal (n * 10 + (code c - 48)) s

-- Texts of the same number of digits.
abbrev pub AreDigits : String → String → Type 0
AreDigits String.[] String.[] = Unit {0}
AreDigits String.[] (String.◌∷◌ d t) = false ≡ true
AreDigits (String.◌∷◌ c s) String.[] = false ≡ true
AreDigits (String.◌∷◌ c s) (String.◌∷◌ d t) =
    (48 ≤ code c) × (code c ≤ 57) × (48 ≤ code d) × (code d ≤ 57) × AreDigits s t

decimal-lt : (m n : ℕ) (s t : String) → AreDigits s t → m < n → decimal m s < decimal n t
decimal-lt m n String.[] String.[] digits less = less
decimal-lt m n String.[] (String.◌∷◌ d t) digits less = ground (arith, digits)
decimal-lt m n (String.◌∷◌ c s) String.[] digits less = ground (arith, digits)
decimal-lt m n (String.◌∷◌ c s) (String.◌∷◌ d t) (c_low, c_high, d_low, d_high, digits) less =
    decimal-lt (m * 10 + (code c - 48)) (n * 10 + (code d - 48)) s t digits (omega arith)

pub decimal-le :
    (n : ℕ) (s t : String) → AreDigits s t → text_leb s t ≡ true → decimal n s ≤ decimal n t
decimal-le n String.[] String.[] digits below = ground arith
decimal-le n String.[] (String.◌∷◌ d t) digits below = ground (arith, digits)
decimal-le n (String.◌∷◌ c s) String.[] digits below = ground (arith, digits)
decimal-le n (String.◌∷◌ c s) (String.◌∷◌ d t) (c_low, c_high, d_low, d_high, digits) below =
    elim (Bool-cases (ltb (code c) (code d))) [
      | inl less ↦
          let smaller =
            decimal-lt (n * 10 + (code c - 48)) (n * 10 + (code d - 48)) s t digits
              (ground (arith, less, c_low, d_low)) in
          omega (arith, smaller)
      | inr not_less ↦
          let (same, rest) : (code c ≡ code d) × (text_leb s t ≡ true) =
            (ground (arith, not_less, below), ground (arith, not_less, below)) in
          subst (λ x. decimal (n * 10 + (code c - 48)) s ≤ decimal (n * 10 + (x - 48)) t) same
            (decimal-le (n * 10 + (code c - 48)) s t digits rest)
    ]
