-- ===== src/Base/Runs.antt =====
-- When `promise_all` and `map_task` return, and what holds of the values then.
use mathlib.Core.List.{Memᴰ}
use mathlib.Core.Path.{◌≡◌, refl, subst, sym}
use mathlib.Core.List.{List, [], ◌∷◌}
use native.Mathlib.Omega.{arith}
use block_listener.Base.Task.{Thrown, Task, returns, throws, ◌>>=◌, promise_all, map_task}

-- Every member of a list has a property.
abbrev pub Each : {A : Type 0} → (A → Type 0) → List A → Type 0
Each {A} P xs = (x : A) → Memᴰ x xs → P x

-- A task that returns, from any state, a value with a property.
abbrev pub Returns : {S A : Type 0} → (A → Type 0) → Task S A → Type 0
Returns {S} {A} P m = (s : S) → (a : A) × (t : S) × (m s ≡ returns a t) × P a

-- A task that returns a value with a property and keeps the state.
abbrev pub Gives : {S A : Type 0} → (A → Type 0) → Task S A → Type 0
Gives {S} {A} P m = (a : A) × ((s : S) → m s ≡ returns a s) × P a

pub Each-nil : {A : Type 0} (P : A → Type 0) → Each P []
Each-nil P x member = elim member [ ]

pub Each-cons :
    {A : Type 0} (P : A → Type 0) (x : A) (xs : List A) → P x → Each P xs → Each P (x ∷ xs)
Each-cons P x xs p ps y (Memᴰ.head e) = subst P (sym e) p
Each-cons P x xs p ps y (Memᴰ.tail m) = ps y m

module _ {S A B : Type 0} (P : B → Type 0) (f : A → Task S B) where
  pub promise_all-Returns :
      ((a : A) → Returns P (f a)) → (xs : List A) → Returns (Each P) (promise_all f xs)
  unfolding promise_all
  promise_all-Returns runs [] s = ([], s, refl, Each-nil P)
  promise_all-Returns runs (x ∷ xs) s =
      let (y, t, done, holds) = runs x s in
      let (ys, u, all_done, all_hold) = promise_all-Returns runs xs t in
      (y ∷ ys, u, ground (arith, done, all_done), Each-cons P y ys holds all_hold)

  pub map_task-Gives : (xs : List A) → Each (λ a. Gives P (f a)) xs → Gives (Each P) (map_task f xs)
  unfolding map_task
  map_task-Gives [] runs = ([], λ s. refl, Each-nil P)
  map_task-Gives (x ∷ xs) runs =
      let (y, done, holds) = runs x (Memᴰ.head refl) in
      let (ys, all_done, all_hold) = map_task-Gives xs (λ z z_in. runs z (Memᴰ.tail z_in)) in
      (y ∷ ys, λ s. ground (arith, done s, all_done s), Each-cons P y ys holds all_hold)

pub returns->>= :
    {S A B : Type 0} (m : Task S A) (f : A → Task S B) (s t : S) (a : A)
    → m s ≡ returns a t
    → (m >>= f) s ≡ f a t
returns->>= m f s t a e = ground (arith, e)

pub throws->>= :
    {S A B : Type 0} (m : Task S A) (f : A → Task S B) (s t : S) (e : Thrown)
    → m s ≡ throws e t
    → (m >>= f) s ≡ throws e t
throws->>= m f s t e failed = ground (arith, failed)
