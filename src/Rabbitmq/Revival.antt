-- ===== src/Rabbitmq/Revival.antt =====
-- Executor.ts on the vhost of ConfigCreation.ts: a message while the dead channel is consumed, which
-- `startDeadRecovery` never stops.
use block_listener.Base.{
  ℕ, String, ◌≤◌, ◌≡◌, refl, ◌∙◌, ap, inl, inr, ◌⊎◌, arith, Bool-cases, List, [], ◌∷◌, some,
  string_eq, eq_iff,
}
use block_listener.Base.Task.{Thrown}
use block_listener.Executor.Message.{ExecutorMsgPayload}
use block_listener.Executor.Channels.{add_retry_prefix, add_dead_prefix, add_direct_pub_prefix}
use block_listener.Executor.{
  Executor, retry_channel, dead_channel, process_channel, message_can_be_retried, should_wait,
  failure_message, managed_message, recovery_message,
}
use block_listener.Rabbitmq.Names.{Subscription, subscription_name, queue_name}
use block_listener.Rabbitmq.{to_queue, subscription_queue}
use block_listener.Rabbitmq.Topology.{publication_of, retry_dead_connected, direct_iff_same_name}

-- The queue of a subscription.
abbrev pub queue_of : Subscription → String
queue_of s = queue_name (subscription_queue s)

-- The queues that one message comes to while dead messages are recovered, with the errors of its
-- handler, newest first. The handler takes from the queue of the subscription, the retry manager and
-- the recovery from its retry and dead queue. A publication counts only if the vhost has it.
pub data Cycle {S P : Type 0} (uri : String) (s : Subscription) (x : Executor S P)
    : List Thrown → String → ExecutorMsgPayload P → Type 0 where
  starts : (b : ExecutorMsgPayload P) → Cycle uri s x [] (queue_of s) b
  fails :
      {es : List Thrown} {b : ExecutorMsgPayload P} (q : String)
      → Cycle uri s x es (queue_of s) b
      → (e : Thrown) (now : ℕ)
      → publication_of uri (failure_message x b e now).channel ≡ some (to_queue q)
      → Cycle uri s x (e ∷ es) q (failure_message x b e now).body
  managed :
      {es : List Thrown} {b : ExecutorMsgPayload P} (q : String)
      → Cycle uri s x es (add_retry_prefix (queue_of s)) b
      → (v : S) → publication_of uri (managed_message x b v).channel ≡ some (to_queue q)
      → Cycle uri s x es q (managed_message x b v).body
  recovered :
      {es : List Thrown} {b : ExecutorMsgPayload P} (q : String)
      → Cycle uri s x es (add_dead_prefix (queue_of s)) b
      → (now : ℕ) → publication_of uri (recovery_message x b now).channel ≡ some (to_queue q)
      → Cycle uri s x es q (recovery_message x b now).body

module _ {S P : Type 0} (uri : String) (s : Subscription) (x : Executor S P) where
  -- A delivery to the handler, with the fields.
  abbrev pub Delivered : List Thrown → P → Type 0
  Delivered es fields =
      (b : ExecutorMsgPayload P) × Cycle uri s x es (queue_of s) b × (b.payload.fields ≡ fields)

  -- What the retry manager makes of a message that is due goes to the process or the dead channel.
  managed_message-channel :
      (b : ExecutorMsgPayload P) (v : S)
      → b.process_after ≤ x.date_now v
      → ((managed_message x b v).channel ≡ process_channel x)
        ⊎ ((managed_message x b v).channel ≡ dead_channel x)
  unfolding managed_message should_wait
  managed_message-channel b v due = elim (Bool-cases (message_can_be_retried x b)) [
    | inl can ↦ inl (ground (arith, can))
    | inr dead ↦ inr (ground (arith, dead))
  ]

  managed_message-fields :
      (b : ExecutorMsgPayload P) (v : S) → (managed_message x b v).body.payload ≡ b.payload
  unfolding managed_message
  managed_message-fields b v = ground arith

  failure_message-fields :
      (b : ExecutorMsgPayload P) (e : Thrown) (now : ℕ)
      → (failure_message x b e now).body.payload.fields ≡ b.payload.fields
  unfolding failure_message
  failure_message-fields b e now = ground arith

  module _ (named : x.channel ≡ subscription_name s) where
    to_retry :
        publication_of uri (retry_channel x) ≡ some (to_queue (add_retry_prefix (queue_of s)))
    unfolding retry_channel
    to_retry =
        ap (λ c. publication_of uri (add_retry_prefix c)) named ∙ (retry_dead_connected uri s).0

    to_dead : publication_of uri (dead_channel x) ≡ some (to_queue (add_dead_prefix (queue_of s)))
    unfolding dead_channel
    to_dead =
        ap (λ c. publication_of uri (add_dead_prefix c)) named ∙ (retry_dead_connected uri s).2

    module _ (same_name : subscription_name s ≡ queue_of s)
        (clock : (t : ℕ) → (v : S) × (t ≤ x.date_now v)) where
      to_process : publication_of uri (process_channel x) ≡ some (to_queue (queue_of s))
      unfolding process_channel
      to_process =
          ap (λ c. publication_of uri (add_direct_pub_prefix c)) named
          ∙ direct_iff_same_name uri s
          ∙ ground (arith, eq_iff (subscription_name s) (queue_of s), same_name)

      dead-Delivered :
          {es : List Thrown} (fields : P) (b : ExecutorMsgPayload P)
          → Cycle uri s x es (add_dead_prefix (queue_of s)) b
          → b.payload.fields ≡ fields
          → Delivered es fields
      unfolding recovery_message
      dead-Delivered fields b c same =
          ((recovery_message x b 0).body, recovered (queue_of s) c 0 to_process, same)

      retry-Delivered :
          {es : List Thrown} (fields : P) (b : ExecutorMsgPayload P)
          → Cycle uri s x es (add_retry_prefix (queue_of s)) b
          → b.payload.fields ≡ fields
          → Delivered es fields
      retry-Delivered fields b c same =
          let (v, due) = clock b.process_after in
          let again = ap (λ p. p.fields) (managed_message-fields b v) ∙ same in
          elim (managed_message-channel b v due) [
            | inl process ↦ (
              (managed_message x b v).body,
              managed (queue_of s) c v (ap (publication_of uri) process ∙ to_process),
              again,
            )
            | inr dead ↦
                dead-Delivered fields (managed_message x b v).body
                  (managed (add_dead_prefix (queue_of s)) c v
                    (ap (publication_of uri) dead ∙ to_dead))
                  again
          ]

      failure_message-channel :
          (b : ExecutorMsgPayload P) (e : Thrown)
          → ((failure_message x b e 0).channel ≡ dead_channel x)
            ⊎ ((failure_message x b e 0).channel ≡ retry_channel x)
      unfolding failure_message
      failure_message-channel b e = ground arith

      -- For an executor of a subscription whose queue has its name, while the dead channel is
      -- consumed, the broker takes what the vhost has a publication for, and time goes on: whatever
      -- errors the handler throws on a message, and however many, there is a next delivery of it to
      -- the handler, with the fields of the first.
      pub Delivered-without_end :
          (b : ExecutorMsgPayload P) (es : List Thrown) → Delivered es b.payload.fields
      Delivered-without_end b [] = (b, starts b, refl)
      Delivered-without_end b (e ∷ es) =
          let (b', c, same) = Delivered-without_end b es in
          let again = failure_message-fields b' e 0 ∙ same in
          elim (failure_message-channel b' e) [
            | inl dead ↦
                dead-Delivered b.payload.fields (failure_message x b' e 0).body
                  (fails (add_dead_prefix (queue_of s)) c e 0
                    (ap (publication_of uri) dead ∙ to_dead))
                  again
            | inr retry ↦
                retry-Delivered b.payload.fields (failure_message x b' e 0).body
                  (fails (add_retry_prefix (queue_of s)) c e 0
                    (ap (publication_of uri) retry ∙ to_retry))
                  again
          ]
