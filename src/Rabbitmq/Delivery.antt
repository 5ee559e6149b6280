-- ===== src/Rabbitmq/Delivery.antt =====
-- The executors of Executor.ts on the vhost of ConfigCreation.ts.
use block_listener.Base.{String, ◌≡◌, ◌≢◌, string_eq, ◌≤◌, none, some, true, ◌∷◌, arith, eq_iff}
use block_listener.Base.Task.{Thrown, state_of}
use block_listener.Executor.Message.{ExecutorMsgPayload, ExecutorMessage}
use block_listener.Executor.{
  Executor, publish_failed, nacked, World, Callbacks, process_channel, managed_message,
  retry_manager,
}
use block_listener.Executor.Routing.{managed_message-process_iff}
use block_listener.Executor.Settlement.{retry_manager-lost}
use block_listener.Rabbitmq.Names.{Subscription, subscription_name, queue_name}
use block_listener.Rabbitmq.{subscription_queue}
use block_listener.Rabbitmq.Topology.{publication_of, direct_iff_same_name}

-- A broker that rejects what is published under a name that is no publication.
abbrev pub RejectsUnknown : {S P : Type 0} → String → Executor S P → Type 0
RejectsUnknown {S} {P} uri x =
    (n : ExecutorMessage P) (v : S)
    → publication_of uri n.channel ≡ none
    → (e : Thrown) × (x.publish_error n v ≡ some e)

module _ {S P : Type 0} (uri : String) (s : Subscription) (x : Executor S P) where
  process_channel-missing :
      x.channel ≡ subscription_name s
      → subscription_name s ≢ queue_name (subscription_queue s)
      → publication_of uri (process_channel x) ≡ none
  unfolding process_channel
  process_channel-missing h ne = rw h (
      rw (direct_iff_same_name uri s)
        (ground (arith, eq_iff (subscription_name s) (queue_name (subscription_queue s)))))

  -- For a subscription whose queue has another name, a retry that is due never reaches its handler:
  -- the retry manager publishes it under a name that is no publication, and nacks the delivery.
  pub due_retry_nacked :
      (m : ExecutorMsgPayload P) (cb : Callbacks) (w : World S P)
      → x.channel ≡ subscription_name s
      → subscription_name s ≢ queue_name (subscription_queue s)
      → RejectsUnknown uri x
      → cb.nack_error ≡ none
      → x.options.retriable ≡ true
      → m.retries ≤ m.max_retries
      → m.process_after ≤ x.date_now w.inner
      → (e : Thrown) × ((state_of (retry_manager x m cb w)).events
          ≡ nacked e ∷ publish_failed (managed_message x m w.inner) ∷ w.events)
  due_retry_nacked m cb w h ne rejects quiet on left due =
      let to_process = (managed_message-process_iff x m w.inner).1 (on, left, due) in
      let (e, lost) =
        rejects (managed_message x m w.inner) w.inner
          (rw to_process (process_channel-missing h ne)) in
      (e, retry_manager-lost x m cb w e quiet lost)
