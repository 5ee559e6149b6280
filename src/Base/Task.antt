-- ===== src/Base/Task.antt =====
-- `async` code: a function of the state that returns or throws, the changes made so far kept in
-- both cases. What runs between two `await`s of a handler is not interleaved with other handlers.
use Prim.Native.String.{String}
use mathlib.Core.Path.{◌≡◌, refl, subst}
use mathlib.Core.Logic.{◌⊎◌, inl, inr}
use mathlib.Core.Bool.{Bool}
use mathlib.Core.Option.{Option, none, some}
use mathlib.Core.List.{List, [], ◌∷◌}
use native.Mathlib.Omega.{arith}

-- A thrown value, with what `serializeError` and `instanceof DirectToDead` read of it.
pub record Thrown : Type 0 where
  pub is_direct_to_dead : Bool
  pub name : String
  pub message : String
  pub stack : String

pub data Outcome (S A : Type 0) : Type 0 where
  returns : A → S → Outcome S A
  throws : Thrown → S → Outcome S A

abbrev pub Task : Type 0 → Type 0 → Type 0
Task S A = S → Outcome S A

abbrev pub state_of : {S A : Type 0} → Outcome S A → S
state_of (returns a s) = s
state_of (throws e s) = s

pub Outcome-cases :
    {S A : Type 0} (r : Outcome S A)
    → ((a : A) × (s : S) × (r ≡ returns a s)) ⊎ ((e : Thrown) × (s : S) × (r ≡ throws e s))
Outcome-cases (returns a s) = inl (a, s, refl)
Outcome-cases (throws e s) = inr (e, s, refl)

module _ {S : Type 0} where
  abbrev pub pure : {A : Type 0} → A → Task S A
  pure a s = returns a s

  abbrev pub throw : {A : Type 0} → Thrown → Task S A
  throw e s = throws e s

  -- A value that is computed by code that may throw.
  abbrev pub or_fail : {A : Type 0} → Thrown → Option A → Task S A
  or_fail e none s = throws e s
  or_fail e (some a) s = returns a s

  infixl 5 ◌>>=◌ ◌>>◌
  abbrev pub ◌>>=◌ : {A B : Type 0} → Task S A → (A → Task S B) → Task S B
  ◌>>=◌ m f s = elim (m s) [ returns a t ↦ f a t | throws e t ↦ throws e t ]

  abbrev pub ◌>>◌ : {A B : Type 0} → Task S A → Task S B → Task S B
  m >> k = m >>= λ _. k

  -- `try { m } catch (e) { h(e) }`, and `m.catch(h)`
  abbrev pub catch : {A : Type 0} → Task S A → (Thrown → Task S A) → Task S A
  catch m h s = elim (m s) [ returns a t ↦ returns a t | throws e t ↦ h e t ]

  -- The rest of `Promise.all` after its first task: it rejects with the earliest error, and the
  -- other tasks run all the same.
  abbrev pub join : {A : Type 0} → Outcome S A → Task S (List A) → Outcome S (List A)
  join (returns a s) rest = elim (rest s) [
    | returns l t ↦ returns (a ∷ l) t
    | throws e t ↦ throws e t
  ]
  join (throws e s) rest = elim (rest s) [ returns _ t ↦ throws e t | throws _ t ↦ throws e t ]

  -- `Promise.all(xs.map(f))`, the tasks run in the order of the list
  unfoldable pub promise_all : {A B : Type 0} → (A → Task S B) → List A → Task S (List B)
  promise_all f [] = pure []
  promise_all f (x ∷ xs) = λ s. join (f x s) (promise_all f xs)

-- What is true of every value that a task returns.
abbrev pub Ensures : {S A : Type 0} → (A → Type 0) → Task S A → Type 0
Ensures {S} {A} Q m = (s t : S) (a : A) → m s ≡ returns a t → Q a

-- What is true of the value of an outcome, when there is one.
abbrev pub Holds : {S A : Type 0} → (A → Type 0) → Outcome S A → Type 0
Holds Q (returns a s) = Q a
Holds Q (throws e s) = Unit {0}

pub pure-Ensures :
    {S A : Type 0} (Q : A → Type 0) (a : A) → Q a → Ensures {S = S} {A = A} Q (pure a)
pure-Ensures Q a q s t b done = subst (Holds Q) done q

pub bind-Ensures :
    {S A B : Type 0} (Q : B → Type 0) (m : Task S A) (f : A → Task S B)
    → ((a : A) → Ensures Q (f a))
    → Ensures Q (m >>= f)
bind-Ensures Q m f h s t b e = elim (Outcome-cases (m s)) [
  | inl (a, u, done) ↦ h a u t b (ground (arith, done))
  | inr (error, u, failed) ↦ ground (arith, failed)
]

-- The same with what is true of the values of the first task.
pub bind-Ensures_given :
    {S A B : Type 0} (P : A → Type 0) (Q : B → Type 0) (m : Task S A) (f : A → Task S B)
    → Ensures P m
    → ((a : A) → P a → Ensures Q (f a))
    → Ensures Q (m >>= f)
bind-Ensures_given P Q m f p h s t b e = elim (Outcome-cases (m s)) [
  | inl (a, u, done) ↦ h a (p s u a done) u t b (ground (arith, done))
  | inr (error, u, failed) ↦ ground (arith, failed)
]

module _ {S : Type 0} where
  -- `xs.map(f)` for a function that may throw: the first error ends it.
  unfoldable pub map_task : {A B : Type 0} → (A → Task S B) → List A → Task S (List B)
  map_task f [] = pure []
  map_task f (x ∷ xs) = do y ← f x; ys ← map_task f xs; pure (y ∷ ys)
