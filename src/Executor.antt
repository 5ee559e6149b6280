-- ===== src/Executor.antt =====
-- Infrastructure/Broker/Executor.ts: the wrapper round every message handler, its retries and the
-- recovery of dead messages, over any state `S` that the handler works on and any payload `P`.
pub mod Channels
pub mod Message
pub mod Backoff
pub mod Settlement
pub mod Routing
pub mod Budget
pub mod Recovery
use block_listener.Base.{
  ℕ, ◌+◌, String, Bool, ◌&&◌, ◌||◌, List, [], ◌∷◌, Option, none, some, if◌then◌else◌, ltb, leb,
  nat_beq, not, true, false,
}
use block_listener.Base.Task.{Thrown, Outcome, returns, throws, Task, pure, ◌>>=◌, ◌>>◌, catch}
use Backoff.{backoff_default_strategy}
use Message.{
  serialize_error, Payload, ExecutorMsgPayload, no_opts, opts_of, ExecutorMessage, executor_message,
}
use Channels.{add_retry_prefix, add_dead_prefix, add_direct_pub_prefix}

pub record ExecutorOptions : Type 0 where
  pub retriable : Bool
  pub backoff_strategy : ℕ → ℕ

abbrev pub default_options : ExecutorOptions
default_options = record { retriable = true; backoff_strategy = backoff_default_strategy }

-- An executor: the class's fields, the subclass's `execute`, the clock, and what the broker answers
-- to a publication (`some e` when it rejects with `e`).
pub record Executor (S P : Type 0) : Type 0 where
  pub options : ExecutorOptions
  pub channel : String
  pub execute : ExecutorMsgPayload P → Task S (Unit {0})
  pub date_now : S → ℕ
  pub publish_error : ExecutorMessage P → S → Option Thrown

-- What a handler does to the broker's side, newest first.
pub data Event (P : Type 0) : Type 0 where
  published : ExecutorMessage P → Event P
  publish_failed : ExecutorMessage P → Event P
  acked : Event P
  nacked : Thrown → Event P
  logged_error : Thrown → Event P

pub record World (S P : Type 0) : Type 0 where
  pub inner : S
  pub events : List (Event P)

-- The two callbacks of a delivery: what calling each throws, if anything.
pub record Callbacks : Type 0 where
  pub ack_error : Option Thrown
  pub nack_error : Option Thrown

module _ {S P : Type 0} where
  abbrev pub emit : Event P → World S P → World S P
  emit e w = record w { events = e ∷ w.events }

  unfoldable pub ack : Callbacks → Task (World S P) (Unit {0})
  ack cb w = elim cb.ack_error [ none ↦ returns tt (emit acked w) | some e ↦ throws e w ]

  unfoldable pub nack : Callbacks → Thrown → Task (World S P) (Unit {0})
  nack cb error w = elim cb.nack_error [
    | none ↦ returns tt (emit (nacked error) w)
    | some e ↦ throws e w
  ]

  -- A task of the handler's own state inside the world.
  abbrev pub inside : World S P → Outcome S (Unit {0}) → Outcome (World S P) (Unit {0})
  inside w (returns a s) = returns a (record w { inner = s })
  inside w (throws e s) = throws e (record w { inner = s })

-- `amount && msgCount === amount`
abbrev pub reached : Option ℕ → ℕ → Bool
reached none msg_count = false
reached (some amount) msg_count = not (nat_beq amount 0) && nat_beq msg_count amount

module _ {S P : Type 0} (x : Executor S P) where
  unfoldable pub retry_channel : String
  retry_channel = add_retry_prefix x.channel

  unfoldable pub dead_channel : String
  dead_channel = add_dead_prefix x.channel

  unfoldable pub process_channel : String
  process_channel = add_direct_pub_prefix x.channel

  unfoldable pub publish : ExecutorMessage P → Task (World S P) (Unit {0})
  publish m w = elim (x.publish_error m w.inner) [
    | none ↦ returns tt (emit (published m) w)
    | some e ↦ throws e (emit (publish_failed m) w)
  ]

  unfoldable pub should_wait : ExecutorMsgPayload P → S → Bool
  should_wait m s = ltb (x.date_now s) m.process_after

  unfoldable pub message_can_be_retried : ExecutorMsgPayload P → Bool
  message_can_be_retried m = x.options.retriable && leb m.retries m.max_retries

  -- The message that `retryHandler` publishes for a failure.
  unfoldable pub failure_message : ExecutorMsgPayload P → Thrown → ℕ → ExecutorMessage P
  unfolding executor_message retry_channel dead_channel
  failure_message m error now =
      if error.is_direct_to_dead
      then executor_message dead_channel
          (record { fields = m.payload.fields; error = some (serialize_error error) }) no_opts now
      else executor_message retry_channel m.payload
          (record {
            retries = some (m.retries + 1);
            max_retries = none;
            process_after = some (now + x.options.backoff_strategy m.retries);
            error = some (serialize_error error);
          })
          now

  unfoldable pub retry_handler : ExecutorMsgPayload P → Thrown → Task (World S P) (Unit {0})
  unfolding publish
  retry_handler m error w = publish (failure_message m error (x.date_now w.inner)) w

  unfoldable pub execution_wrapper : ExecutorMsgPayload P → Callbacks → Task (World S P) (Unit {0})
  unfolding retry_handler ack nack
  execution_wrapper m cb =
      catch ((λ w. inside w (x.execute m w.inner)) >> ack cb)
        (λ error. catch (retry_handler m error >> ack cb) (nack cb))

  -- `publish(…).then(ack).catch(nack)`
  unfoldable pub publish_and_settle : ExecutorMessage P → Callbacks → Task (World S P) (Unit {0})
  unfolding publish ack nack
  publish_and_settle message cb = catch (publish message >> ack cb) (nack cb)

  -- The message that `retryManager` publishes.
  unfoldable pub managed_message : ExecutorMsgPayload P → S → ExecutorMessage P
  unfolding executor_message retry_channel dead_channel process_channel
  managed_message m s =
      let now = x.date_now s in
      if not (message_can_be_retried m)
      then executor_message dead_channel m.payload no_opts now
      else if should_wait m s
      then executor_message retry_channel m.payload (opts_of m) now
      else executor_message process_channel m.payload (opts_of m) now

  -- The first two branches return their promise without `await`, so what it rejects with passes by
  -- the `catch` clause.
  unfoldable pub retry_manager : ExecutorMsgPayload P → Callbacks → Task (World S P) (Unit {0})
  unfolding publish_and_settle retry_handler message_can_be_retried should_wait
  retry_manager m cb w =
      let settle = publish_and_settle (managed_message m w.inner) cb in
      if not (message_can_be_retried m) || should_wait m w.inner
      then settle w
      else catch settle
          (λ error.
            (λ v. returns tt (emit (logged_error error) v))
            >> catch (retry_handler m error >> ack cb) (nack cb))
          w

  -- The message that a recovery publishes for a dead one.
  unfoldable pub recovery_message : ExecutorMsgPayload P → ℕ → ExecutorMessage P
  unfolding executor_message process_channel
  recovery_message m now = executor_message process_channel m.payload no_opts now

  -- A delivery of the dead channel: `startDeadRecovery`'s callback, over its counter `msgCount`.
  -- No `amount` is `none`.
  unfoldable pub recover_dead : Option ℕ → ExecutorMsgPayload P → Callbacks → ℕ → Task (World S P) ℕ
  unfolding publish_and_settle recovery_message
  recover_dead amount m cb msg_count = do
    (λ w. publish_and_settle (recovery_message m (x.date_now w.inner)) cb w)
    if reached amount msg_count then pure msg_count else pure (msg_count + 1)

  -- The deliveries of the dead channel one after the other.
  unfoldable pub start_dead_recovery :
      Option ℕ → Callbacks → ℕ → List (ExecutorMsgPayload P) → Task (World S P) ℕ
  unfolding recover_dead
  start_dead_recovery amount cb msg_count [] = pure msg_count
  start_dead_recovery amount cb msg_count (m ∷ ms) = do
    n ← recover_dead amount m cb msg_count
    start_dead_recovery amount cb n ms
