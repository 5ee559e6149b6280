-- ===== src/App/Quiet.antt =====
-- Tasks that send and store nothing, and tasks that never return `undefined`.
use block_listener.Base.{◌≡◌, ◌∙◌, refl, sym, ap, inl, inr, Option, none, some, arith, nat_eq}
use block_listener.Base.Task.{
  Thrown, Outcome, returns, Task, or_fail, catch, ◌>>=◌, state_of, Outcome-cases,
}
use block_listener.App.{App, on_db}

module _ {D : Type 0} where
  -- The task sends and stores nothing, however it ends.
  abbrev pub IsQuiet : {A : Type 0} → Task (App D) A → Type 0
  IsQuiet m = (w : App D) → (state_of (m w)).effects ≡ w.effects

  pub on_db-IsQuiet : {A : Type 0} (task : Task D A) → IsQuiet (on_db task)
  on_db-IsQuiet task w = elim (Outcome-cases (task w.db)) [
    | inl (a, d, done) ↦ ground (arith, done)
    | inr (e, d, failed) ↦ ground (arith, failed)
  ]

  pub or_fail-IsQuiet : {A : Type 0} (e : Thrown) (o : Option A) → IsQuiet (or_fail e o)
  or_fail-IsQuiet e none w = refl
  or_fail-IsQuiet e (some a) w = refl

  pub bind-IsQuiet :
      {A B : Type 0} (m : Task (App D) A) (k : A → Task (App D) B)
      → IsQuiet m
      → ((a : A) → IsQuiet (k a))
      → IsQuiet (m >>= k)
  bind-IsQuiet m k h g w = elim (Outcome-cases (m w)) [
    | inl (a, t, done) ↦ ground (arith, done, h w, g a t)
    | inr (e, t, failed) ↦ ground (arith, failed, h w)
  ]

  pub after :
      {A : Type 0} (m : Task (App D) A) (w : App D) (o : Outcome (App D) A)
      → IsQuiet m
      → m w ≡ o
      → (state_of o).effects ≡ w.effects
  after {A} m w o quiet e = ap (λ (r : Outcome (App D) A). (state_of r).effects) (sym e) ∙ quiet w

  pub catch-IsQuiet :
      {A : Type 0} (m : Task (App D) A) (k : Thrown → Task (App D) A)
      → IsQuiet m
      → ((e : Thrown) → IsQuiet (k e))
      → IsQuiet (catch m k)
  catch-IsQuiet m k h g w = elim (Outcome-cases (m w)) [
    | inl (a, t, done) ↦ ground (arith, done, h w)
    | inr (e, t, failed) ↦ ground (arith, failed, h w, g e t)
  ]

  -- The task never returns `undefined`.
  abbrev pub IsDefined : {A : Type 0} → Task (App D) (Option A) → Type 0
  IsDefined m = (w t : App D) → m w ≡ returns none t → ⊥

  pub bind-IsDefined :
      {A B : Type 0} (m : Task (App D) A) (k : A → Task (App D) (Option B))
      → ((a : A) → IsDefined (k a))
      → IsDefined (m >>= k)
  bind-IsDefined m k g w t h = elim (Outcome-cases (m w)) [
    | inl (a, u, done) ↦ g a u t (ground (arith, done, h))
    | inr (e, u, failed) ↦ ground (arith, failed, h)
  ]
