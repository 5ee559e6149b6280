-- ===== src/App/Publish.antt =====
-- Publications that the broker accepts.
use block_listener.Base.{◌≡◌, refl, List, [], ◌∷◌, map, Option, none, arith}
use block_listener.Base.Task.{Thrown, returns, promise_all}
use block_listener.Messages.{Message}
use block_listener.App.{App, Effect, sent, publish}

abbrev pub sent_each : {A : Type 0} → (A → Message) → List A → List Effect → List Effect
sent_each f [] es = es
sent_each f (x ∷ xs) es = sent_each f xs (sent (f x) ∷ es)

-- Publications that are all accepted.
module _ {D : Type 0} (publish_error : Message → D → Option Thrown)
    (accepts : (m : Message) (d : D) → publish_error m d ≡ none) where
  pub promise_all-publish :
      {A : Type 0} (f : A → Message) (xs : List A) (w : App D)
      → promise_all (λ x. publish publish_error (f x)) xs w
        ≡ returns (map (λ _. tt) xs) (record w { effects = sent_each f xs w.effects })
  unfolding promise_all
  promise_all-publish f [] w = refl
  promise_all-publish f (x ∷ xs) w = ground (
    arith,
    accepts (f x) w.db,
    promise_all-publish f xs (record w { effects = sent (f x) ∷ w.effects }),
  )
