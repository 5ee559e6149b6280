-- ===== src/Executor/Settlement.antt =====
-- Executor.ts: how often a delivery is acknowledged, and where its message goes.
use block_listener.Base.{
  ℕ, suc, ◌≤◌, ◌≡◌, ◌⊎◌, inl, inr, List, [], ◌∷◌, Option, none, some, arith, Option-cases,
  if◌then◌else◌,
}
use block_listener.Base.Task.{Thrown, throws, state_of}
use block_listener.Executor.Message.{ExecutorMsgPayload, ExecutorMessage}
use block_listener.Executor.{
  Executor, Event, published, publish_failed, acked, nacked, logged_error, World, Callbacks,
  retry_channel, dead_channel, process_channel, failure_message, managed_message, execution_wrapper,
  publish_and_settle, retry_manager,
}

-- How many of the events tell the broker that the delivery is over.
abbrev pub settlements : {P : Type 0} → List (Event P) → ℕ
settlements [] = 0
settlements (acked ∷ es) = suc (settlements es)
settlements (nacked e ∷ es) = suc (settlements es)
settlements (published m ∷ es) = settlements es
settlements (publish_failed m ∷ es) = settlements es
settlements (logged_error e ∷ es) = settlements es

-- How many of the events put a message on the broker.
abbrev pub publications : {P : Type 0} → List (Event P) → ℕ
publications [] = 0
publications (published m ∷ es) = suc (publications es)
publications (acked ∷ es) = publications es
publications (nacked e ∷ es) = publications es
publications (publish_failed m ∷ es) = publications es
publications (logged_error e ∷ es) = publications es

-- How the events of a publication and its settlement go on from earlier ones, by the error of the
-- publication: the message was sent and then acknowledged, or the delivery nacked if `ack` threw;
-- or it was not sent and the delivery nacked.
abbrev pub IsSettled :
    {P : Type 0} → Option Thrown → ExecutorMessage P → List (Event P) → List (Event P) → Type 0
IsSettled none n before after =
    (after ≡ acked ∷ published n ∷ before)
    ⊎ ((e : Thrown) × (after ≡ nacked e ∷ published n ∷ before))
IsSettled (some e) n before after = after ≡ nacked e ∷ publish_failed n ∷ before

module _ {S P : Type 0} (x : Executor S P) (n : ExecutorMessage P) (cb : Callbacks)
    (v : World S P) where
  publish_and_settle-sent :
      x.publish_error n v.inner ≡ none
      → cb.ack_error ≡ none
      → (state_of (publish_and_settle x n cb v)).events ≡ acked ∷ published n ∷ v.events
  unfolding publish_and_settle
  publish_and_settle-sent h k = ground arith

  publish_and_settle-unacked :
      (e : Thrown)
      → x.publish_error n v.inner ≡ none
      → cb.ack_error ≡ some e
      → cb.nack_error ≡ none
      → (state_of (publish_and_settle x n cb v)).events ≡ nacked e ∷ published n ∷ v.events
  unfolding publish_and_settle
  publish_and_settle-unacked e h k quiet = ground arith

  publish_and_settle-lost :
      (e : Thrown)
      → x.publish_error n v.inner ≡ some e
      → cb.nack_error ≡ none
      → (state_of (publish_and_settle x n cb v)).events ≡ nacked e ∷ publish_failed n ∷ v.events
  unfolding publish_and_settle
  publish_and_settle-lost e h k = ground arith

  publish_and_settle-IsSettled :
      cb.nack_error ≡ none
      → IsSettled
          (x.publish_error n v.inner)
          n
          v.events
          (state_of (publish_and_settle x n cb v)).events
  publish_and_settle-IsSettled quiet = elim (Option-cases (x.publish_error n v.inner)) [
    | inr (e, lost) ↦ rw lost (publish_and_settle-lost e lost quiet)
    | inl sent ↦ rw sent (elim (Option-cases cb.ack_error) [
      | inl taken ↦ inl (publish_and_settle-sent sent taken)
      | inr (e, refused) ↦ inr (e, publish_and_settle-unacked e sent refused quiet)
    ])
  ]

module _ {S P : Type 0} (x : Executor S P) (m : ExecutorMsgPayload P) (cb : Callbacks)
    (w : World S P) where
  -- Whatever the handler, the broker and `ack` do, `executionWrapper` settles its delivery exactly
  -- once if `nack` does not throw.
  pub execution_wrapper-settles :
      cb.nack_error ≡ none
      → settlements (state_of (execution_wrapper x m cb w)).events ≡ suc (settlements w.events)
  unfolding execution_wrapper
  execution_wrapper-settles h = ground arith

  -- Whatever the broker and `ack` do, `retryManager` settles its delivery exactly once if `nack` does
  -- not throw.
  pub retry_manager-settles :
      cb.nack_error ≡ none
      → settlements (state_of (retry_manager x m cb w)).events ≡ suc (settlements w.events)
  unfolding retry_manager
  retry_manager-settles h = ground arith

  -- `executionWrapper` publishes one message at most.
  pub execution_wrapper-publications :
      publications (state_of (execution_wrapper x m cb w)).events ≤ suc (publications w.events)
  unfolding execution_wrapper
  execution_wrapper-publications = ground arith

  -- `retryManager` publishes one message at most if `nack` does not throw.
  pub retry_manager-publications :
      cb.nack_error ≡ none
      → publications (state_of (retry_manager x m cb w)).events ≤ suc (publications w.events)
  unfolding retry_manager
  retry_manager-publications h = ground arith

  failure_message-payload :
      (e : Thrown) (now : ℕ)
      → ((failure_message x m e now).body.payload.fields ≡ m.payload.fields)
        × ((failure_message x m e now).channel
            ≡ (if e.is_direct_to_dead then dead_channel x else retry_channel x))
  unfolding failure_message
  failure_message-payload e now = ground arith

  after_failure :
      (e : Thrown) (s : S)
      → x.execute m w.inner ≡ throws e s
      → execution_wrapper x m cb w
        ≡ publish_and_settle x (failure_message x m e (x.date_now s)) cb (record w { inner = s })
  unfolding execution_wrapper publish_and_settle
  after_failure e s h = ground arith

  -- If `nack` does not throw, and the handler throws: a message with the fields of the delivery is
  -- published to the dead channel for an error that is direct to dead, and else to the retry channel.
  -- If the broker takes it, the delivery is then acknowledged, or nacked if `ack` throws. If the
  -- broker does not take it, the delivery is nacked with the broker's error, and nothing is
  -- acknowledged.
  pub execution_wrapper-IsSettled :
      (e : Thrown) (s : S)
      → x.execute m w.inner ≡ throws e s
      → cb.nack_error ≡ none
      → (n : ExecutorMessage P) × (n.body.payload.fields ≡ m.payload.fields)
        × (n.channel ≡ (if e.is_direct_to_dead then dead_channel x else retry_channel x))
        × IsSettled (x.publish_error n s) n w.events (state_of (execution_wrapper x m cb w)).events
  execution_wrapper-IsSettled e s h quiet =
      let n = failure_message x m e (x.date_now s) in
      let (same, target) = failure_message-payload e (x.date_now s) in
      rw (after_failure e s h)
        (n, same, target, publish_and_settle-IsSettled x n cb (record w { inner = s }) quiet)

  retry_manager-sent :
      cb.ack_error ≡ none
      → x.publish_error (managed_message x m w.inner) w.inner ≡ none
      → (state_of (retry_manager x m cb w)).events
        ≡ acked ∷ published (managed_message x m w.inner) ∷ w.events
  unfolding retry_manager
  retry_manager-sent h sent = ground arith

  pub retry_manager-lost :
      (e : Thrown)
      → cb.nack_error ≡ none
      → x.publish_error (managed_message x m w.inner) w.inner ≡ some e
      → (state_of (retry_manager x m cb w)).events
        ≡ nacked e ∷ publish_failed (managed_message x m w.inner) ∷ w.events
  unfolding retry_manager
  retry_manager-lost e k lost = ground arith

  managed_message-payload :
      (s : S)
      → ((managed_message x m s).body.payload ≡ m.payload)
        × (((managed_message x m s).channel ≡ retry_channel x)
            ⊎ ((managed_message x m s).channel ≡ dead_channel x)
            ⊎ ((managed_message x m s).channel ≡ process_channel x))
  unfolding managed_message
  managed_message-payload s = ground arith

  -- If neither `ack` nor `nack` throws, a message that the retry manager takes is published with its
  -- payload to the retry, the dead or the process channel and then acknowledged, or nacked after the
  -- publication failed.
  pub retry_manager-keeps :
      cb.ack_error ≡ none
      → cb.nack_error ≡ none
      → ((n : ExecutorMessage P) × ((state_of (retry_manager x m cb w)).events
            ≡ acked ∷ published n ∷ w.events)
          × (n.body.payload ≡ m.payload)
          × ((n.channel ≡ retry_channel x)
              ⊎ (n.channel ≡ dead_channel x)
              ⊎ (n.channel ≡ process_channel x)))
        ⊎ ((e : Thrown) × ((state_of (retry_manager x m cb w)).events
              ≡ nacked e ∷ publish_failed (managed_message x m w.inner) ∷ w.events))
  retry_manager-keeps h k =
      let n = managed_message x m w.inner in
      let (same, target) = managed_message-payload w.inner in
      elim (Option-cases (x.publish_error n w.inner)) [
        | inl sent ↦ inl (n, retry_manager-sent h sent, same, target)
        | inr (e, lost) ↦ inr (e, retry_manager-lost e k lost)
      ]
