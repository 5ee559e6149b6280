-- ===== src/UseCases/ProcessTx/Published.antt =====
-- ProcessTx.ts: every way in which the use case ends, with what it has published.
use block_listener.Base.{◌≡◌, ◌∙◌, ap, subst, ◌⊎◌, inl, inr, ◌∷◌, some, Option-cases, arith, nat_eq}
use block_listener.Base.Task.{Thrown, Outcome, returns, throws, Task, ◌>>=◌, Outcome-cases}
use block_listener.Entities.Tx.{RawTx, TxProps, create, validation_error}
use block_listener.Messages.{TxReceipt, TxDiscoveredPayload, tx_processed}
use block_listener.App.{App, sent, note, publish}
use block_listener.App.Quiet.{IsQuiet, after}
use block_listener.UseCases.ProcessTx.Raw.{
  IsReceipt, get_raw_transaction-IsQuiet, get_raw_transaction-none,
}
use block_listener.TxProcessor.{process}
use block_listener.UseCases.ProcessTx.{Deps, get_raw_transaction, processed, unprocessed, execute}

module _ {D : Type 0} (deps : Deps D) (p : TxDiscoveredPayload) where
  processed-IsQuiet : (tx : TxProps) → IsQuiet (processed deps tx)
  processed-IsQuiet tx w =
      elim (Outcome-cases (process deps.strategies (record { db = w.db; tx = tx }))) [
        | inl (a, t, done) ↦ ground (arith, done)
        | inr (e, t, failed) ↦ ground (arith, failed)
      ]

  -- A transaction that the schema takes, with what the processors make of it.
  abbrev pub IsMade : TxProps → Type 0
  IsMade tx =
      (raw : RawTx) × (valid : TxProps) × (s : App D) × (t : App D) × (deps.schemas.tx_value
          (unprocessed deps p raw)
        ≡ some valid)
      × (processed deps valid s ≡ returns tx t)

  abbrev pub Ends : App D → Outcome (App D) (Unit {0}) → Type 0
  Ends w (throws e t) = t.effects ≡ w.effects
  Ends w (returns _ t) =
      ((r : TxReceipt) × IsReceipt deps p r × (r.status ≡ some 0) × (t.effects ≡ w.effects))
      ⊎ ((tx : TxProps) × IsMade tx × (t.effects ≡ sent (tx_processed p.blockchain tx) ∷ w.effects))

  -- The rest of `execute` for a raw transaction.
  abbrev announced : RawTx → Task (App D) (Unit {0})
  announced raw = do
    valid ← create deps.schemas (unprocessed deps p raw)
    tx ← processed deps valid
    publish deps.publish_error (tx_processed p.blockchain tx)

  published-Ends :
      (tx : TxProps) (w t : App D)
      → IsMade tx
      → t.effects ≡ w.effects
      → Ends w (publish deps.publish_error (tx_processed p.blockchain tx) t)
  published-Ends tx w t made same =
      elim (Option-cases (deps.publish_error (tx_processed p.blockchain tx) t.db)) [
        | inl sends ↦
            subst (Ends w) {x = returns tt (note (sent (tx_processed p.blockchain tx)) t)}
              (ground (arith, sends))
              (inr (tx, made, ap (λ l. sent (tx_processed p.blockchain tx) ∷ l) same))
        | inr (e, refuses) ↦ subst (Ends w) {x = throws e t} (ground (arith, refuses)) same
      ]

  failed_equation :
      (raw : RawTx) (valid : TxProps) (t : App D) (e : Thrown) (u : App D)
      → deps.schemas.tx_value (unprocessed deps p raw) ≡ some valid
      → processed deps valid t ≡ throws e u
      → throws e u ≡ announced raw t
  unfolding create
  failed_equation raw valid t e u good failed = ground (arith, good, failed)

  done_equation :
      (raw : RawTx) (valid tx : TxProps) (t u : App D)
      → deps.schemas.tx_value (unprocessed deps p raw) ≡ some valid
      → processed deps valid t ≡ returns tx u
      → publish deps.publish_error (tx_processed p.blockchain tx) u ≡ announced raw t
  unfolding create
  done_equation raw valid tx t u good done = ground (arith, good, done)

  announced-Ends : (raw : RawTx) (w t : App D) → t.effects ≡ w.effects → Ends w (announced raw t)
  unfolding create
  announced-Ends raw w t same =
      elim (Option-cases (deps.schemas.tx_value (unprocessed deps p raw))) [
        | inl bad ↦ subst (Ends w) {x = throws validation_error t} (ground (arith, bad)) same
        | inr (valid, good) ↦ elim (Outcome-cases (processed deps valid t)) [
          | inr (e, u, failed) ↦
              subst (Ends w) (failed_equation raw valid t e u good failed) (
                after (processed deps valid) t (throws e u) (processed-IsQuiet valid) failed ∙ same)
          | inl (tx, u, done) ↦ subst (Ends w) (done_equation raw valid tx t u good done) (
              published-Ends tx w u (raw, valid, t, u, good, done)
                (after (processed deps valid) t (returns tx u) (processed-IsQuiet valid) done
                  ∙ same))
        ]
      ]

  -- However the services answer, handling a message ends in one of three ways: it throws, and nothing
  -- was sent or stored; its receipt, or the one that the provider gave, says that the transaction
  -- failed, and nothing was sent or stored; or exactly one message was sent, that the transaction is
  -- processed, with what the processors made of a transaction that the schema takes.
  pub execute-Ends : (w : App D) → Ends w (execute deps p w)
  unfolding execute
  execute-Ends w = elim (Outcome-cases (get_raw_transaction deps p w)) [
    | inr (e, t, failed) ↦ subst (Ends w) {x = throws e t} (ground (arith, failed)) (
        after (get_raw_transaction deps p) w (throws e t) (get_raw_transaction-IsQuiet deps p)
          failed)
    | inl (found, t, done) ↦
        let same =
          after (get_raw_transaction deps p) w (returns found t)
            (get_raw_transaction-IsQuiet deps p) done in
        elim (Option-cases found) [
          | inl nothing ↦
              let (r, received, failed) =
                get_raw_transaction-none deps p w t (done ∙ ap (λ o. returns o t) nothing) in
              subst (Ends w) {x = returns tt t} (ground (arith, done, nothing))
                (inl (r, received, failed, same))
          | inr (raw, some_raw) ↦
              subst (Ends w) {x = announced raw t} (ground (arith, done, some_raw))
                (announced-Ends raw w t same)
        ]
  ]
