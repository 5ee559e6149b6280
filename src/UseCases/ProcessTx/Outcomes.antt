-- ===== src/UseCases/ProcessTx/Outcomes.antt =====
-- ProcessTx.ts: what a message comes to, and how its executor goes on when it fails.
use block_listener.Base.{◌∙◌, ℕ, ◌+◌, ◌≡◌, ◌∷◌, none, some, if◌then◌else◌, arith}
use block_listener.Base.Task.{Thrown, returns, throws, state_of}
use block_listener.Messages.{TxReceipt, TxDiscoveredPayload}
use block_listener.App.{App}
use block_listener.Executor.Message.{ExecutorMsgPayload, ExecutorMessage}
use block_listener.Executor.{
  Executor, published, acked, World, Callbacks, retry_channel, dead_channel, failure_message,
  execution_wrapper,
}
use block_listener.UseCases.ProcessTx.{Deps, invalid_tx_hash, receipt_not_available, execute}

module _ {D : Type 0} (deps : Deps D) (p : TxDiscoveredPayload) (w : App D) where
  -- A message about a transaction that its receipt says has failed is done without a publication.
  pub execute_failed_tx :
      (r : TxReceipt) (d : D)
      → deps.get_provider p.blockchain w.db ≡ returns tt d
      → p.tx_receipt ≡ some r
      → r.status ≡ some 0
      → execute deps p w ≡ returns tt (record w { db = d })
  unfolding execute
  execute_failed_tx r d provides given failed = ground arith

  -- If there is a provider, the message has no receipt and the provider refuses it, an invalid hash ends in the error that
  -- is direct to dead, and any other failure in the error that the receipt is not available.
  execute-throws :
      (e : Thrown) (c d : D)
      → deps.get_provider p.blockchain w.db ≡ returns tt c
      → p.tx_receipt ≡ none
      → deps.get_transaction_receipt p.blockchain p.hash c ≡ throws e d
      → execute deps p w
        ≡ throws
            (if deps.is_invalid_hash e then invalid_tx_hash else receipt_not_available)
            (record w { db = d })
  unfolding execute
  execute-throws e c d provides missing failed = ground arith

-- `ProcessTx` as an executor: its handler works on the payload of the message.
module _ {D : Type 0} (deps : Deps D) (x : Executor (App D) TxDiscoveredPayload)
    (runs : (m : ExecutorMsgPayload TxDiscoveredPayload) (w : App D)
      → x.execute m w ≡ execute deps m.payload.fields w)
    (accepts : (m : ExecutorMessage TxDiscoveredPayload) (w : App D)
      → x.publish_error m w ≡ none) where
  failure_published :
      (m : ExecutorMsgPayload TxDiscoveredPayload) (cb : Callbacks)
      (w : World (App D) TxDiscoveredPayload) (error : Thrown) (s : App D)
      → cb.ack_error ≡ none
      → x.execute m w.inner ≡ throws error s
      → (state_of (execution_wrapper x m cb w)).events
        ≡ acked ∷ published (failure_message x m error (x.date_now s)) ∷ w.events
  unfolding execution_wrapper
  failure_published m cb w error s quiet failed =
      ground (arith, accepts (failure_message x m error (x.date_now s)) s)

  failure_lem :
      (m : ExecutorMsgPayload TxDiscoveredPayload) (error : Thrown) (now : ℕ)
      → let n = failure_message x m error now in
        (n.channel ≡ (if error.is_direct_to_dead then dead_channel x else retry_channel x))
        × (n.body.retries ≡ (if error.is_direct_to_dead then 0 else m.retries + 1))
        × (n.body.payload.fields ≡ m.payload.fields)
  unfolding failure_message
  failure_lem m error now = ground arith

  -- While there is a provider and the broker takes messages, a message without a receipt whose receipt the provider refuses
  -- is published once and acknowledged: to the dead channel if its hash is invalid, and else to the
  -- retry channel with one more retry.
  pub execution_wrapper-execute_lem :
      (m : ExecutorMsgPayload TxDiscoveredPayload) (cb : Callbacks)
      (w : World (App D) TxDiscoveredPayload) (e : Thrown) (c d : D)
      → cb.ack_error ≡ none
      → deps.get_provider m.payload.fields.blockchain w.inner.db ≡ returns tt c
      → m.payload.fields.tx_receipt ≡ none
      → deps.get_transaction_receipt m.payload.fields.blockchain m.payload.fields.hash c
        ≡ throws e d
      → (n : ExecutorMessage TxDiscoveredPayload) × ((state_of (execution_wrapper x m cb w)).events
          ≡ acked ∷ published n ∷ w.events)
        × (n.channel ≡ (if deps.is_invalid_hash e then dead_channel x else retry_channel x))
        × (n.body.retries ≡ (if deps.is_invalid_hash e then 0 else m.retries + 1))
        × (n.body.payload.fields ≡ m.payload.fields)
  execution_wrapper-execute_lem m cb w e c d quiet provides missing failed =
      let p = m.payload.fields in
      let error = if deps.is_invalid_hash e then invalid_tx_hash else receipt_not_available in
      let s : App D = record (w.inner) { db = d } in
      let (target, count, same) = failure_lem m error (x.date_now s) in
      (
        failure_message x m error (x.date_now s),
        failure_published m cb w error s quiet
            (runs m w.inner ∙ execute-throws deps p w.inner e c d provides missing failed),
        target ∙ ground arith,
        count ∙ ground arith,
        same,
      )
