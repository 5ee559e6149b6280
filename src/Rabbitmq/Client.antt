-- ===== src/Rabbitmq/Client.antt =====
-- Infrastructure/Broker/Rabbitmq/RabbitMqClient.ts, over the vhost that it is configured with.
pub mod Calls
use block_listener.Base.{
  ℕ, String, ◌≡◌, ◌≢◌, refl, ◌===◌, string_eq, if◌then◌else◌, any, get_or, Option, none, some,
  false,
}
use block_listener.Base.Task.{Thrown, returns, throws, Task, pure, throw, ◌>>=◌}
use block_listener.Executor.{logged_error, World, Callbacks, emit, nack}
use block_listener.Rabbitmq.Names.{Subscription, subscription_name, queue_name}
use block_listener.Rabbitmq.{VhostConfig, subscription_queue, vhost_config}

abbrev pub failure : String → String → Thrown
failure name message = record {
  is_direct_to_dead = false;
  name = name;
  message = message;
  stack = "";
}

-- What `undefined.name` throws.
abbrev pub undefined_name : Thrown
undefined_name = failure "TypeError" "Cannot read properties of undefined (reading 'name')"

-- `queue_len` is the `backing_queue_status.len` that the management API answers. rascal keeps
-- `config.queues` by name.
unfoldable pub get_pending_messages :
    {S : Type 0} → Option VhostConfig → (String → Task S (Option ℕ)) → String → Task S ℕ
get_pending_messages none queue_len channel =
    throw (failure "Error" "No RabbitMQ Config for the default vhost '/'")
get_pending_messages (some config) queue_len channel =
    let ask : Task _ ℕ = (do len ← queue_len channel; pure (get_or len 0)) in
    if any (λ name. name === channel) config.queues
    then if channel === "" then throw (failure "Error" "No queue for subscription ") else ask
    else throw undefined_name

-- The listener that `subscribe` puts on a delivery.
unfoldable pub on_message :
    {S P : Type 0} → Callbacks → Task (World S P) (Unit {0}) → Task (World S P) (Unit {0})
unfolding nack
on_message cb callback w = elim (callback w) [
  | returns a v ↦ returns a v
  | throws e v ↦ nack cb e (emit (logged_error e) v)
]

module _ {S : Type 0} (uri : String) (queue_len : String → Task S (Option ℕ)) where
  -- Asked for the pending messages of a subscription whose queue has another name, the client
  -- throws: it looks the subscription up among the queues.
  pub get_pending_messages-throws :
      (s : Subscription) (t : S)
      → subscription_name s ≢ queue_name (subscription_queue s)
      → get_pending_messages (some (vhost_config uri)) queue_len (subscription_name s) t
        ≡ throws undefined_name t
  unfolding get_pending_messages vhost_config
  get_pending_messages-throws Subscription.discovered_tx_to_process t h = refl
  get_pending_messages-throws Subscription.tx_processed t h = refl
  get_pending_messages-throws Subscription.save_token t h = absurd (h refl)
  get_pending_messages-throws Subscription.save_wallet t h = absurd (h refl)
