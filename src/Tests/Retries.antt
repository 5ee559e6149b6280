-- ===== src/Tests/Retries.antt =====
-- Runs of an executor whose handler fails, at the time that its state tells.
use block_listener.Base.{
  ℕ, String, ◌≡◌, ◌≢◌, ◌≤◌, apart, ◌⊎◌, refl, false, [], ◌∷◌, none, some, arith,
}
use block_listener.Base.Task.{Thrown, throws, state_of}
use block_listener.Executor.Message.{ExecutorMsgPayload, ExecutorMessage}
use block_listener.Executor.Channels.{add_retry_prefix, add_dead_prefix, add_direct_pub_prefix}
use block_listener.Executor.Backoff.{backoff_default_strategy}
use block_listener.Executor.{
  Executor, default_options, published, publish_failed, acked, nacked, World, Callbacks,
  retry_channel, dead_channel, process_channel, failure_message, managed_message, execution_wrapper,
  retry_manager, start_dead_recovery, recovery_message,
}
use block_listener.Executor.Settlement.{
  settlements, IsSettled, execution_wrapper-settles, execution_wrapper-IsSettled,
  retry_manager-keeps,
}
use block_listener.Executor.Budget.{Life, starts, fails, Life-le, retry_round}
use block_listener.Rabbitmq.Revival.{Delivered, Delivered-without_end}
use block_listener.Executor.Recovery.{recovered, start_dead_recovery-recovered}
use block_listener.Rabbitmq.Names.{Subscription}
use block_listener.Rabbitmq.{vhost_config}
use block_listener.Rabbitmq.Objects.{lookup}
use block_listener.Rabbitmq.Topology.{publication_of}
use block_listener.Rabbitmq.Delivery.{RejectsUnknown, due_retry_nacked}

abbrev node_down : Thrown
node_down = record { is_direct_to_dead = false; name = "Error"; message = "node down"; stack = "" }

abbrev failing : Executor ℕ String
failing = record {
  options = default_options;
  channel = "tx_processed";
  execute = λ m s. throws node_down s;
  date_now = λ s. s;
  publish_error = λ m s. none;
}

abbrev delivery : ℕ → ExecutorMsgPayload String
delivery retries = record {
  retries = retries;
  max_retries = 10;
  payload = record { fields = "0xabc"; error = none };
  process_after = 100;
  error = none;
}

abbrev quiet : Callbacks
quiet = record { ack_error = none; nack_error = none }

abbrev at_time : ℕ → World ℕ String
at_time now = record { inner = now; events = [] }

execution_wrapper-settles_example :
    settlements (state_of (execution_wrapper failing (delivery 0) quiet (at_time 100))).events ≡ 1
execution_wrapper-settles_example =
    execution_wrapper-settles failing (delivery 0) quiet (at_time 100) refl

execution_wrapper-IsSettled_example :
    (n : ExecutorMessage String) × (n.body.payload.fields ≡ "0xabc")
    × (n.channel ≡ retry_channel failing)
    × IsSettled none n []
        (state_of (execution_wrapper failing (delivery 0) quiet (at_time 100))).events
execution_wrapper-IsSettled_example =
    execution_wrapper-IsSettled failing (delivery 0) quiet (at_time 100) node_down 100 refl refl

retry_manager-keeps_example :
    ((n : ExecutorMessage String) × ((state_of
          (retry_manager failing (delivery 3) quiet (at_time 100))).events
        ≡ acked ∷ published n ∷ [])
      × (n.body.payload ≡ (delivery 3).payload)
      × ((n.channel ≡ retry_channel failing)
          ⊎ (n.channel ≡ dead_channel failing)
          ⊎ (n.channel ≡ process_channel failing)))
    ⊎ ((e : Thrown) × ((state_of (retry_manager failing (delivery 3) quiet (at_time 100))).events
          ≡ nacked e ∷ publish_failed (managed_message failing (delivery 3) 100) ∷ []))
retry_manager-keeps_example = retry_manager-keeps failing (delivery 3) quiet (at_time 100) refl refl

abbrev first_message : ExecutorMessage String
first_message = record { channel = "tx_processed"; body = delivery 0 }

not_retrying : "tx_processed" ≢ retry_channel failing
unfolding retry_channel add_retry_prefix
not_retrying = apart "tx_processed" (retry_channel failing) refl

not_dead : "tx_processed" ≢ dead_channel failing
unfolding dead_channel add_dead_prefix
not_dead = apart "tx_processed" (dead_channel failing) refl

not_processing : "tx_processed" ≢ process_channel failing
unfolding process_channel add_direct_pub_prefix
not_processing = apart "tx_processed" (process_channel failing) refl

first-Life : Life failing 0 first_message
first-Life = starts first_message not_retrying not_processing refl

second-Life : Life failing 1 (failure_message failing (delivery 0) node_down 100)
second-Life = fails first-Life not_retrying not_dead node_down 100 refl

Life-le_example : 1 ≤ 11
Life-le_example = Life-le failing second-Life

retry_round_example :
    let next =
      managed_message failing (failure_message failing (delivery 3) node_down 100).body 60_000 in
    (next.channel ≡ process_channel failing)
    × (next.body.retries ≡ 4)
    × (next.body.payload ≡ (delivery 3).payload)
unfolding failure_message backoff_default_strategy
retry_round_example = retry_round failing (delivery 3) node_down 100 60_000 refl refl (omega arith)

-- A broker that takes what is published under the names of the vhost.
abbrev on_vhost : Executor ℕ String
on_vhost = record failing {
  publish_error = λ m s. elim (publication_of "amqp://rabbit" m.channel) [
    | none ↦ some node_down
    | some t ↦ none
  ];
}

rejects_unknown : RejectsUnknown "amqp://rabbit" on_vhost
rejects_unknown n v missing = (node_down, ground arith)

due_retry_nacked_example :
    (e : Thrown) × ((state_of (retry_manager on_vhost (delivery 3) quiet (at_time 100))).events
      ≡ nacked e ∷ publish_failed (managed_message on_vhost (delivery 3) 100) ∷ [])
due_retry_nacked_example =
    due_retry_nacked "amqp://rabbit" Subscription.tx_processed on_vhost (delivery 3) quiet
      (at_time 100) refl (apart "tx_processed" "save_tx_of_interest" refl) rejects_unknown refl refl
      (omega arith) (omega arith)

-- The executor of a subscription whose queue has its name, on the same broker.
abbrev saving_tokens : Executor ℕ String
saving_tokens = record on_vhost { channel = "save_token" }

start_dead_recovery-recovered_example :
    state_of (
      start_dead_recovery saving_tokens
        (some 1)
        quiet
        0
        (delivery 11 ∷ delivery 12 ∷ delivery 13 ∷ [])
        (at_time 100))
    ≡ record {
      inner = 100;
      events = recovered saving_tokens 100 (delivery 11 ∷ delivery 12 ∷ delivery 13 ∷ []) [];
    }
start_dead_recovery-recovered_example =
    start_dead_recovery-recovered saving_tokens (some 1) quiet refl refl
      (delivery 11 ∷ delivery 12 ∷ delivery 13 ∷ []) 0 (at_time 100)

-- There the broker takes a recovered message, and under `tx_processed` it does not.
recovered_or_nacked :
    (recovered saving_tokens 100 (delivery 11 ∷ []) []
      ≡ acked ∷ published (recovery_message saving_tokens (delivery 11) 100) ∷ [])
    × (recovered on_vhost 100 (delivery 11 ∷ []) []
        ≡ nacked node_down ∷ publish_failed (recovery_message on_vhost (delivery 11) 100) ∷ [])
unfolding recovery_message process_channel add_direct_pub_prefix vhost_config lookup
recovered_or_nacked = (refl, refl)

Delivered-without_end_example :
    Delivered "amqp://rabbit" Subscription.save_token saving_tokens
      (node_down ∷ node_down ∷ [])
      "0xabc"
Delivered-without_end_example =
    Delivered-without_end "amqp://rabbit" Subscription.save_token saving_tokens refl refl
      (λ t. (t, omega arith)) (delivery 0) (node_down ∷ node_down ∷ [])
