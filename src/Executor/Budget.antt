-- ===== src/Executor/Budget.antt =====
-- Executor.ts: how often a message is executed before it is dead.
use block_listener.Base.{
  ℕ, suc, ◌+◌, ◌≤◌, ◌≡◌, ◌≢◌, refl, sym, ◌∙◌, inl, inr, true, false, arith, Bool-cases, ◌===◌,
  string_eq, eq_iff, ltb, if◌then◌else◌,
}
use block_listener.Base.Task.{Thrown}
use block_listener.Executor.Message.{ExecutorMsgPayload, ExecutorMessage}
use block_listener.Executor.Channels.{retry-ne-dead, retry-ne-direct, dead-ne-direct}
use block_listener.Executor.{
  Executor, retry_channel, dead_channel, process_channel, message_can_be_retried, should_wait,
  failure_message, managed_message,
}

-- The messages that one publication leads to, with the number of its executions that failed. What is
-- published under neither the retry nor the dead channel is delivered to the handler, and what is
-- published under the retry channel to the retry manager. A message that is recovered from the dead
-- channel counts as a publication of its own, and is left out here.
pub data Life {S P : Type 0} (x : Executor S P) : ℕ → ExecutorMessage P → Type 0 where
  starts :
      (m : ExecutorMessage P)
      → m.channel ≢ retry_channel x
      → m.channel ≢ process_channel x
      → m.body.retries ≡ 0
      → Life x 0 m
  fails :
      {n : ℕ} {m m' : ExecutorMessage P}
      → Life x n m
      → m.channel ≢ retry_channel x
      → m.channel ≢ dead_channel x
      → (e : Thrown) (now : ℕ) → m' ≡ failure_message x m.body e now
      → Life x (suc n) m'
  managed :
      {n : ℕ} {m m' : ExecutorMessage P}
      → Life x n m
      → m.channel ≡ retry_channel x
      → (s : S) → m' ≡ managed_message x m.body s
      → Life x n m'

record IsCounted {S P : Type 0} (x : Executor S P) (n : ℕ) (m : ExecutorMessage P) : Type 0 where
  bound : n ≤ 11
  started :
      m.channel ≢ retry_channel x
      → m.channel ≢ dead_channel x
      → m.channel ≢ process_channel x
      → (n ≡ 0) × (m.body.retries ≡ 0)
  retrying : m.channel ≡ retry_channel x → (m.body.retries ≡ n) × (m.body.max_retries ≡ 10)
  processing :
      m.channel ≡ process_channel x → (m.body.retries ≡ n) × (m.body.max_retries ≡ 10) × (n ≤ 10)

module _ {S P : Type 0} (x : Executor S P) where
  -- The retries that the handler reads, and how often it has failed by then.
  handled :
      (n : ℕ) (m : ExecutorMessage P)
      → IsCounted x n m
      → m.channel ≢ retry_channel x
      → m.channel ≢ dead_channel x
      → (m.body.retries ≡ n) × (n ≤ 10)
  handled n m v h k = elim (Bool-cases (m.channel === process_channel x)) [
    | inl same ↦ let p = v.processing ((eq_iff m.channel (process_channel x)).0 same) in (p.0, p.2)
    | inr other ↦
        let first =
          v.started h k (λ e. ground (arith, (eq_iff m.channel (process_channel x)).1 e, other)) in
        (first.1 ∙ sym first.0, omega (arith, first.0))
  ]

  failure_message-IsCounted :
      (n : ℕ) (m : ExecutorMessage P) (e : Thrown) (now : ℕ)
      → (m.body.retries ≡ n) × (n ≤ 10)
      → IsCounted x (suc n) (failure_message x m.body e now)
  unfolding failure_message process_channel
  failure_message-IsCounted n m e now v = record {
    bound = omega (arith, v.1);
    started = ground arith;
    retrying = ground (arith, retry-ne-dead x.channel, v.0);
    processing = ground (arith, retry-ne-direct x.channel, dead-ne-direct x.channel);
  }

  managed_message-IsCounted :
      (n : ℕ) (m : ExecutorMessage P) (s : S)
      → IsCounted x n m
      → m.channel ≡ retry_channel x
      → IsCounted x n (managed_message x m.body s)
  unfolding managed_message message_can_be_retried
  managed_message-IsCounted n m s v h = record {
    bound = v.bound;
    started = ground arith;
    retrying = ground (arith, retry-ne-dead x.channel, retry-ne-direct x.channel);
    processing = ground (arith, retry-ne-direct x.channel, dead-ne-direct x.channel);
  }

  Life-IsCounted : {n : ℕ} {m : ExecutorMessage P} → Life x n m → IsCounted x n m
  Life-IsCounted (starts m h k z) = record {
    bound = omega arith;
    started = λ _ _ _. (refl, z);
    retrying = λ r. absurd (h r);
    processing = λ r. absurd (k r);
  }
  Life-IsCounted (fails {n} {m} l h k e now eq) =
      rw eq (failure_message-IsCounted n m e now (handled n m (Life-IsCounted l) h k))
  Life-IsCounted (managed {n} {m} l h s eq) =
      rw eq (managed_message-IsCounted n m s (Life-IsCounted l) h)

  -- A message that is published with no retries, under neither the retry nor the process channel and
  -- with whatever limit, fails eleven times at most in its handler, unless it is recovered from the
  -- dead channel.
  pub Life-le : {n : ℕ} {m : ExecutorMessage P} → Life x n m → n ≤ 11
  Life-le l = (Life-IsCounted l).bound

  -- A message that was published with no retries under neither the retry nor the process channel says
  -- in its `retries`, whenever it is delivered to its handler, how often the handler has failed on it
  -- before, which is ten times at most; recoveries from the dead channel left out.
  pub Life-retries :
      {n : ℕ} {m : ExecutorMessage P}
      → Life x n m
      → m.channel ≢ retry_channel x
      → m.channel ≢ dead_channel x
      → (m.body.retries ≡ n) × (n ≤ 10)
  Life-retries {n} {m} l = handled n m (Life-IsCounted l)

  -- One round of an executor that may retry: the handler fails, and the retry manager takes the
  -- message when its time has come. Under ten retries the message goes to the process channel with
  -- one more of them, and from ten on to the dead channel, where they start again from 0. It keeps
  -- its payload, and the limit `m.max_retries` that it had plays no part.
  pub retry_round :
      (m : ExecutorMsgPayload P) (e : Thrown) (now : ℕ) (s : S)
      → x.options.retriable ≡ true
      → e.is_direct_to_dead ≡ false
      → (failure_message x m e now).body.process_after ≤ x.date_now s
      → let next = managed_message x (failure_message x m e now).body s in
        (next.channel ≡ (if ltb m.retries 10 then process_channel x else dead_channel x))
        × (next.body.retries ≡ (if ltb m.retries 10 then m.retries + 1 else 0))
        × (next.body.payload ≡ m.payload)
  unfolding failure_message managed_message message_can_be_retried should_wait
  retry_round m e now s h k due = ground arith
