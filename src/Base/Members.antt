-- ===== src/Base/Members.antt =====
-- The entries of a list, and those that a test of `any` takes.
use mathlib.Core.Path.{◌≡◌, ◌∙◌, refl, ap}
use mathlib.Core.Logic.{◌⊎◌, inl, inr}
use mathlib.Core.Bool.{Bool, true}
use mathlib.Core.List.{List, [], ◌∷◌}
use native.Mathlib.Omega.{arith}
use block_listener.Base.Comparison.{Bool-cases}
use block_listener.Base.Lists.{any}

module _ {A : Type 0} where
  abbrev pub In : A → List A → Type 0
  In x [] = ⊥
  In x (y ∷ ys) = (y ≡ x) ⊎ In x ys

  pub any-In : (p : A → Bool) (xs : List A) → any p xs ≡ true → (x : A) × In x xs × (p x ≡ true)
  any-In p [] h = ground arith
  any-In p (x ∷ xs) h = elim (Bool-cases (p x)) [
    | inl yes_x ↦ (x, inl refl, yes_x)
    | inr no_x ↦
        let (y, member, yes_y) = any-In p xs (ground (arith, h, no_x)) in (y, inr member, yes_y)
  ]

  pub In-any : (p : A → Bool) (xs : List A) (x : A) → In x xs → p x ≡ true → any p xs ≡ true
  In-any p [] x member h = absurd member
  In-any p (y ∷ ys) x (inl same) h = let here : p y ≡ true = ap p same ∙ h in ground (arith, here)
  In-any p (y ∷ ys) x (inr later) h = let rest = In-any p ys x later h in ground (arith, rest)
