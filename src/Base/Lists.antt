-- ===== src/Base/Lists.antt =====
-- Lists measured by native numbers, and the array methods that the source calls.
use Prim.Native.Nat.{ℕ, suc, ◌+◌, ◌≤◌}
use mathlib.Core.Path.{◌≡◌, refl}
use mathlib.Core.Bool.{Bool, true, false, ◌||◌}
use mathlib.Core.Option.{Option, none, some}
use mathlib.Core.List.{List, [], ◌∷◌, ◌++◌}
use native.Mathlib.Omega.{arith}
use block_listener.Base.Comparison.{if◌then◌else◌}

module _ {ℓ} {A : Type ℓ} where
  -- `Array.prototype.some`
  abbrev pub any : (A → Bool) → List A → Bool
  any p [] = false
  any p (x ∷ xs) = p x || any p xs

  -- `Array.prototype.find`
  abbrev pub find : (A → Bool) → List A → Option A
  find p [] = none
  find p (x ∷ xs) = if p x then some x else find p xs

  abbrev pub count_if : (A → Bool) → List A → ℕ
  count_if p [] = 0
  count_if p (x ∷ xs) = if p x then suc (count_if p xs) else count_if p xs

  -- Add an entry at the end, unless the list has one that the test takes for it.
  abbrev pub push_unless : (A → Bool) → A → List A → List A
  push_unless same x xs = if any same xs then xs else xs ++ x ∷ []

  pub any-append : (p : A → Bool) (xs ys : List A) → any p (xs ++ ys) ≡ (any p xs || any p ys)
  any-append p [] ys = refl
  any-append p (x ∷ xs) ys = ground (arith, any-append p xs ys)

  pub count_if-append :
      (p : A → Bool) (xs ys : List A) → count_if p (xs ++ ys) ≡ count_if p xs + count_if p ys
  count_if-append p [] ys = omega arith
  count_if-append p (x ∷ xs) ys = ground (arith, count_if-append p xs ys)

  pub count_if_of_none : (p : A → Bool) (xs : List A) → any p xs ≡ false → count_if p xs ≡ 0
  count_if_of_none p [] h = refl
  count_if_of_none p (x ∷ xs) h = ground (arith, count_if_of_none p xs)

  -- The list with the entry: as before, and one more where the tests agree on the new entry.
  pub any-push_unless :
      (same p : A → Bool) (x : A) (xs : List A)
      → (any same xs ≡ true → p x ≡ true → any p xs ≡ true)
      → any p (push_unless same x xs) ≡ (any p xs || p x)
  any-push_unless same p x xs h = ground (arith, any-append p xs (x ∷ []))

  pub count_if-push_unless :
      (same p : A → Bool) (x : A) (xs : List A)
      → (p x ≡ true → any p xs ≡ any same xs)
      → count_if p xs ≤ 1
      → count_if p (push_unless same x xs) ≤ 1
  count_if-push_unless same p x xs h k =
      ground (arith, count_if-append p xs (x ∷ []), count_if_of_none p xs)
