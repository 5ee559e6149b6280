-- ===== src/Executor/Routing.antt =====
-- Executor.ts: where `retryManager` and `retryHandler` send a message, and what it still says.
use block_listener.Base.{◌≤◌, ◌<◌, ◌≡◌, ◌↔◌, ◌⊎◌, true, false, arith}
use block_listener.Executor.Message.{ExecutorMsgPayload}
use block_listener.Executor.Channels.{retry-ne-dead, retry-ne-direct, dead-ne-direct}
use block_listener.Executor.{
  Executor, dead_channel, process_channel, message_can_be_retried, should_wait, managed_message,
}

module _ {S P : Type 0} (x : Executor S P) (m : ExecutorMsgPayload P) where
  -- The retry manager sends a message to the process channel exactly when its executor retries, its
  -- retries have not passed their limit and its time has come.
  pub managed_message-process_iff :
      (s : S)
      → ((managed_message x m s).channel ≡ process_channel x) ↔ (
          (x.options.retriable ≡ true)
          × (m.retries ≤ m.max_retries)
          × (m.process_after ≤ x.date_now s))
  unfolding managed_message message_can_be_retried should_wait
  managed_message-process_iff s =
      ground (arith, retry-ne-direct x.channel, dead-ne-direct x.channel)

  -- The retry manager sends a message to the dead channel exactly when its executor does not retry
  -- or its retries have passed their limit.
  pub managed_message-dead_iff :
      (s : S)
      → ((managed_message x m s).channel ≡ dead_channel x)
        ↔ ((x.options.retriable ≡ false) ⊎ (m.max_retries < m.retries))
  unfolding managed_message message_can_be_retried should_wait
  managed_message-dead_iff s = ground (arith, retry-ne-dead x.channel, dead-ne-direct x.channel)

  -- A message that can be retried goes on as it is, with its retries, its limit, its time and its
  -- error.
  pub managed_message-keeps :
      (s : S) → message_can_be_retried x m ≡ true → (managed_message x m s).body ≡ m
  unfolding managed_message
  managed_message-keeps s h = ground arith
