-- ===== src/Status/Dead.antt =====
-- StatusController.ts and StatusNotifier.ts on the queues of ConfigCreation.ts.
use block_listener.Base.{
  ℕ, any, String, Bool, true, false, List, [], ◌∷◌, map, get_or, if◌then◌else◌, ◌===◌, string_eq,
  ◌≡◌, refl, sym, subst, inl, inr, Bool-cases, arith,
}
use block_listener.Rabbitmq.Objects.{Object, assign, lookup, replace_first}
use block_listener.Base.Task.{Task, pure, Ensures, pure-Ensures, bind-Ensures_given}
use block_listener.Rabbitmq.{vhost_config}
use block_listener.Status.{
  QueueStatus, starts_with, no_status, counted, broker_status_step, broker_status_from,
  get_broker_status, dead_lines,
}

-- No queue has dead messages.
abbrev pub NoneDead : Object QueueStatus → Type 0
NoneDead [] = Unit {0}
NoneDead ((queue, status) ∷ queues) = (status.dead ≡ 0) × NoneDead queues

if-NoneDead :
    (b : Bool) (x y : Object QueueStatus) → NoneDead x → NoneDead y → NoneDead (if b then x else y)
if-NoneDead true x y x_ok y_ok = x_ok
if-NoneDead false x y x_ok y_ok = y_ok

counted-alive :
    (name : String) (messages : ℕ) (status : QueueStatus)
    → starts_with "dead_" name ≡ false
    → status.dead ≡ 0
    → (counted name messages status).dead ≡ 0
unfolding counted
counted-alive name messages status other alive = elim (Bool-cases (starts_with "retry_" name)) [
  | inl retry ↦ ground (arith, other, retry, alive)
  | inr process ↦ ground (arith, other, process, alive)
]

assign-NoneDead :
    (queue : String) (status : QueueStatus) (object : Object QueueStatus)
    → status.dead ≡ 0
    → NoneDead object
    → NoneDead (assign queue status object)
unfolding assign
assign-NoneDead queue status [] alive ok = (alive, tt)
assign-NoneDead queue status ((q, s) ∷ object) alive (s_alive, ok) =
    if-NoneDead (q === queue) ((queue, status) ∷ object) ((q, s) ∷ assign queue status object)
      (alive, ok) (s_alive, assign-NoneDead queue status object alive ok)

lookup-alive :
    (queue : String) (object : Object QueueStatus)
    → NoneDead object
    → (get_or (lookup queue object) no_status).dead ≡ 0
unfolding lookup
lookup-alive queue [] ok = refl
lookup-alive queue ((q, s) ∷ object) (s_alive, ok) =
    ground (arith, s_alive, lookup-alive queue object ok)

broker_status_step-NoneDead :
    (object : Object QueueStatus) (name : String) (messages : ℕ)
    → starts_with "dead_" name ≡ false
    → NoneDead object
    → NoneDead (broker_status_step object (name, messages))
unfolding broker_status_step counted
broker_status_step-NoneDead object name messages other ok =
    let queue = replace_first (replace_first name "dead_" "") "retry_" "" in
    let status = counted name messages (get_or (lookup queue object) no_status) in
    assign-NoneDead queue (record status { retrying = messages }) object
      (counted-alive name messages (get_or (lookup queue object) no_status) other
        (lookup-alive queue object ok))
      ok

broker_status_from-NoneDead :
    (counts : String → ℕ) (names : List String) (object : Object QueueStatus)
    → any (starts_with "dead_") names ≡ false
    → NoneDead object
    → NoneDead (broker_status_from object (map (λ q. (q, counts q)) names))
unfolding broker_status_from
broker_status_from-NoneDead counts [] object other ok = ok
broker_status_from-NoneDead counts (q ∷ queues) object other ok =
    broker_status_from-NoneDead counts queues (broker_status_step object (q, counts q))
      (ground (arith, other))
      (broker_status_step-NoneDead object q (counts q) (ground (arith, other)) ok)

vhost_queues-other : (uri : String) → any (starts_with "dead_") (vhost_config uri).queues ≡ false
unfolding vhost_config starts_with
vhost_queues-other uri = refl

module _ (to_upper_case : String → String) (number_text : ℕ → String) where
  pub dead_lines-NoneDead :
      (msg : String) (object : Object QueueStatus)
      → NoneDead object
      → dead_lines to_upper_case number_text msg object ≡ msg
  unfolding dead_lines
  dead_lines-NoneDead msg [] ok = refl
  dead_lines-NoneDead msg ((q, status) ∷ object) (alive, ok) =
      ground (arith, alive, dead_lines-NoneDead msg object ok)

-- The page of the queues of the vhost tells of no dead message.
pub get_broker_status-NoneDead :
    {D : Type 0} (uri : String) (counts : String → ℕ)
    (get_all_queue_status : Task D (List (String × ℕ)))
    → Ensures
        (λ queues. queues ≡ map (λ q. (q, counts q)) (vhost_config uri).queues)
        get_all_queue_status
    → Ensures NoneDead (get_broker_status get_all_queue_status)
unfolding get_broker_status
get_broker_status-NoneDead uri counts get_all_queue_status vhost =
    bind-Ensures_given (λ queues. queues ≡ map (λ q. (q, counts q)) (vhost_config uri).queues)
      NoneDead get_all_queue_status (λ queues. pure (broker_status_from [] queues)) vhost
      (λ queues same. pure-Ensures NoneDead (broker_status_from [] queues) (
        subst (λ l. NoneDead (broker_status_from [] l)) (sym same)
          (broker_status_from-NoneDead counts (vhost_config uri).queues [] (vhost_queues-other uri)
            tt)))
