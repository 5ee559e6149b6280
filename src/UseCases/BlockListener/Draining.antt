-- ===== src/UseCases/BlockListener/Draining.antt =====
-- App/UseCases/BlockListener.ts: the wait for the messages to be worked off.
use block_listener.Base.{ℕ, zero, suc, ◌<◌, ◌≤◌, ltb, true, ◌≡◌, inl, inr, Bool-cases, arith}
use block_listener.Base.Task.{returns}
use block_listener.Values.{BlockchainId}
use block_listener.UseCases.BlockListener.{Deps, next_round_awaiter}

-- If the client answered with the pending messages, as for the channel of the listener it does not
-- (Waiting), and they got fewer while the listener sleeps: the fuel of the wait would be enough.
module _ {D : Type 0} (deps : Deps D) (blockchain : BlockchainId) (pending : D → ℕ)
    (answers : (d : D) → deps.get_pending_messages d ≡ returns (pending d) d)
    (drains : (d : D)
      → deps.max_save_tx_messages_to_halt ≤ pending d
      → pending (deps.sleep d) < pending d) where
  -- The wait ends, with fewer pending messages than the limit, after as many sleeps as there were
  -- messages at most.
  pub next_round_awaiter-ends :
      (fuel : ℕ) (d : D)
      → pending d < fuel
      → (t : D) × (next_round_awaiter deps blockchain fuel d ≡ returns true t)
        × (pending t < deps.max_save_tx_messages_to_halt)
  unfolding next_round_awaiter
  next_round_awaiter-ends zero d enough = ground (arith, enough)
  next_round_awaiter-ends (suc fuel) d enough =
      elim (Bool-cases (ltb (pending d) deps.max_save_tx_messages_to_halt)) [
        | inl below ↦ (d, ground (arith, answers d, below), ground (arith, below))
        | inr above ↦
            let (t, ends, low) =
              next_round_awaiter-ends fuel (deps.sleep d)
                (ground (arith, drains d, above, enough)) in
            (t, ground (arith, answers d, above, ends), low)
      ]
