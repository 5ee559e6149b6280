-- ===== src/App/Steps.antt =====
-- Steps of the world that succeed.
use block_listener.Base.{◌∷◌, ◌≡◌, Option, some, arith}
use block_listener.Base.Task.{Thrown, returns, throws, Task, or_fail}
use block_listener.App.{App, Effect, on_db, store}

module _ {D : Type 0} where
  pub on_db-returns :
      {A : Type 0} (task : Task D A) (w : App D) (a : A) (d : D)
      → task w.db ≡ returns a d
      → on_db task w ≡ returns a (record w { db = d })
  on_db-returns task w a d e = ground (arith, e)

  pub store-returns :
      (effect : Effect) (task : Task D (Unit {0})) (w : App D) (d : D)
      → task w.db ≡ returns tt d
      → store effect task w ≡ returns tt (record { db = d; effects = effect ∷ w.effects })
  store-returns effect task w d e = ground (arith, e)

pub or_fail-returns :
    {S A : Type 0} (error : Thrown) (o : Option A) (a : A) (s : S)
    → o ≡ some a
    → or_fail error o s ≡ returns a s
or_fail-returns error o a s e = ground (arith, e)

module _ {D : Type 0} where
  pub on_db-throws :
      {A : Type 0} (task : Task D A) (w : App D) (e : Thrown) (d : D)
      → task w.db ≡ throws e d
      → on_db task w ≡ throws e (record w { db = d })
  on_db-throws task w e d failed = ground (arith, failed)
