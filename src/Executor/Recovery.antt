-- ===== src/Executor/Recovery.antt =====
-- Executor.ts: recovery of dead messages.
use block_listener.Base.{
  ℕ, ◌+◌, ◌≡◌, refl, List, [], ◌∷◌, Option, none, some, inl, inr, Option-cases, arith,
  if◌then◌else◌,
}
use block_listener.Base.Task.{returns, ◌>>=◌, state_of}
use block_listener.Executor.Message.{ExecutorMsgPayload, no_opts, executor_message}
use block_listener.Executor.{
  Executor, Event, published, publish_failed, acked, nacked, World, Callbacks, process_channel,
  reached, recover_dead, start_dead_recovery,
}

module _ {S P : Type 0} (x : Executor S P) where
  -- What one message of the dead channel comes to: it is sent to the process channel, with no retries
  -- counted, and acknowledged, or nacked if the broker does not take it there.
  abbrev pub recovered_one : S → ExecutorMsgPayload P → List (Event P) → List (Event P)
  recovered_one s m es =
      let n = executor_message (process_channel x) m.payload no_opts (x.date_now s) in
      elim (x.publish_error n s) [
        | none ↦ acked ∷ published n ∷ es
        | some e ↦ nacked e ∷ publish_failed n ∷ es
      ]

  -- What a recovery of the messages does to the broker, newest first.
  abbrev pub recovered : S → List (ExecutorMsgPayload P) → List (Event P) → List (Event P)
  recovered s [] es = es
  recovered s (m ∷ ms) es = recovered s ms (recovered_one s m es)

  module _ (amount : Option ℕ) (cb : Callbacks) (quiet : cb.ack_error ≡ none)
      (nack_quiet : cb.nack_error ≡ none) where
    recover_dead_lem :
        (m : ExecutorMsgPayload P) (n : ℕ) (w : World S P)
        → recover_dead x amount m cb n w
          ≡ returns
              (if reached amount n then n else n + 1)
              (record w { events = recovered_one w.inner m w.events })
    unfolding recover_dead
    recover_dead_lem m n w =
        let message = executor_message (process_channel x) m.payload no_opts (x.date_now w.inner) in
        elim (Option-cases (x.publish_error message w.inner)) [
          | inl sent ↦ ground (arith, sent)
          | inr (e, refused) ↦ ground (arith, refused)
        ]

    -- If neither `ack` nor `nack` throws, a recovery with any `amount`, none included, takes every
    -- dead message that it is given: each is sent to the process channel with its payload and no
    -- retries and acknowledged, or, if the broker does not take it there, nacked.
    pub start_dead_recovery-recovered :
        (ms : List (ExecutorMsgPayload P)) (n : ℕ) (w : World S P)
        → state_of (start_dead_recovery x amount cb n ms w)
          ≡ record w { events = recovered w.inner ms w.events }
    unfolding start_dead_recovery
    start_dead_recovery-recovered [] n w = refl
    start_dead_recovery-recovered (m ∷ ms) n w =
        rw (recover_dead_lem m n w, ◌>>=◌)
          (start_dead_recovery-recovered ms (if reached amount n then n else n + 1)
            (record w { events = recovered_one w.inner m w.events }))
