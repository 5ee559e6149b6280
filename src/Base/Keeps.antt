-- ===== src/Base/Keeps.antt =====
-- What a task that returns leaves as it was.
use mathlib.Core.Path.{◌≡◌, ap, sym, ◌∙◌}
use mathlib.Core.Logic.{inl, inr}
use mathlib.Core.Option.{Option, none, some}
use native.Mathlib.Omega.{arith}
use block_listener.Base.Task.{Thrown, returns, Task, pure, or_fail, ◌>>=◌, Outcome-cases, state_of}

-- Whenever the task returns, a view of the state is the same as before.
abbrev pub Keeps : {S A B : Type 0} → (S → B) → Task S A → Type 0
Keeps {S} {A} f m = (s t : S) (a : A) → m s ≡ returns a t → f t ≡ f s

module _ {S B : Type 0} (f : S → B) where
  pub pure-Keeps : {A : Type 0} (a : A) → Keeps {A = A} f (pure a)
  pure-Keeps a s t b e = ap (λ r. f (state_of r)) (sym e)

  pub or_fail-Keeps : {A : Type 0} (error : Thrown) (o : Option A) → Keeps f (or_fail error o)
  or_fail-Keeps error none s t b e = cc
  or_fail-Keeps error (some a) s t b e = ap (λ r. f (state_of r)) (sym e)

  pub bind-Keeps :
      {A C : Type 0} (m : Task S A) (k : A → Task S C)
      → Keeps f m
      → ((a : A) → Keeps f (k a))
      → Keeps f (m >>= k)
  bind-Keeps m k h g s t c e = elim (Outcome-cases (m s)) [
    | inl (a, u, done) ↦ g a u t c (ground (arith, done)) ∙ h s u a done
    | inr (error, u, failed) ↦ ground (arith, failed)
  ]
