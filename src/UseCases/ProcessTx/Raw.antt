-- ===== src/UseCases/ProcessTx/Raw.antt =====
-- ProcessTx.ts: `getRawTransaction` sends nothing, and gives nothing only for a failed transaction.
use block_listener.Base.{
  suc, zero, ◌≡◌, ◌∙◌, refl, ap, ◌⊎◌, inl, inr, Option, none, some, Option-cases, arith, nat_eq,
  if◌then◌else◌,
}
use block_listener.Base.Task.{Thrown, returns, Task, pure, throw, or_fail, Outcome-cases}
use block_listener.Messages.{TxReceipt, TxDiscoveredPayload}
use block_listener.Utils.Address.{checksumed, invalid_address}
use block_listener.App.{App, on_db}
use block_listener.App.Quiet.{
  IsQuiet, IsDefined, on_db-IsQuiet, or_fail-IsQuiet, bind-IsQuiet, catch-IsQuiet, bind-IsDefined,
}
use block_listener.UseCases.ProcessTx.{
  Deps, find_receipt, find_response, find_block, decode_tx_logs, successful_tx, by_receipt,
  get_raw_transaction, no_object, invalid_tx_hash,
}

module _ {D : Type 0} (deps : Deps D) (p : TxDiscoveredPayload) where
  abbrev refused : Thrown → Task (App D) (Option TxReceipt)
  refused err = if deps.is_invalid_hash err then throw invalid_tx_hash else pure none

  refused-IsQuiet : (e : Thrown) → IsQuiet (refused e)
  refused-IsQuiet e w = ground arith

  find_receipt-IsQuiet : IsQuiet (find_receipt deps p)
  unfolding find_receipt
  find_receipt-IsQuiet w = elim (Option-cases p.tx_receipt) [
    | inl asked ↦ ground (
      arith,
      asked,
      catch-IsQuiet (on_db (deps.get_transaction_receipt p.blockchain p.hash)) refused
          (on_db-IsQuiet (deps.get_transaction_receipt p.blockchain p.hash)) refused-IsQuiet w,
    )
    | inr (r, given) ↦ ground (arith, given)
  ]

  find_response-IsQuiet : IsQuiet (find_response deps p)
  unfolding find_response
  find_response-IsQuiet w = elim (Option-cases p.tx_res) [
    | inl asked ↦ ground (arith, asked, on_db-IsQuiet (deps.get_transaction p.blockchain p.hash) w)
    | inr (r, given) ↦ ground (arith, given)
  ]

  find_block-IsQuiet : (r : TxReceipt) → IsQuiet (find_block deps p r)
  unfolding find_block
  find_block-IsQuiet r w = elim (Option-cases p.block) [
    | inl asked ↦
        ground (arith, asked, on_db-IsQuiet (deps.get_block p.blockchain r.block_number) w)
    | inr (b, given) ↦ ground (arith, given)
  ]

  decode_tx_logs-IsQuiet : (r : TxReceipt) → IsQuiet (decode_tx_logs deps r)
  unfolding decode_tx_logs
  decode_tx_logs-IsQuiet r w = elim (Option-cases (deps.decode_logs r.logs)) [
    | inl bad ↦ ground (arith, bad)
    | inr (logs, good) ↦ ground (arith, good)
  ]

  successful_tx-IsQuiet : (r : TxReceipt) → IsQuiet (successful_tx deps p r)
  unfolding successful_tx
  successful_tx-IsQuiet r =
      bind-IsQuiet (find_response deps p) _ find_response-IsQuiet (λ found_res.
        bind-IsQuiet (find_block deps p r) _ (find_block-IsQuiet r) (λ found_block.
          bind-IsQuiet (decode_tx_logs deps r) _ (decode_tx_logs-IsQuiet r) (λ logs.
            bind-IsQuiet (or_fail no_object found_res) _ (or_fail-IsQuiet no_object found_res)
              (λ tx_res.
                bind-IsQuiet (or_fail no_object found_block) _
                  (or_fail-IsQuiet no_object found_block)
                  (λ block.
                    bind-IsQuiet (or_fail invalid_address (checksumed deps.get_address tx_res.to)) _
                      (or_fail-IsQuiet invalid_address (checksumed deps.get_address tx_res.to))
                      (λ to.
                        bind-IsQuiet
                          (or_fail invalid_address (checksumed deps.get_address (some tx_res.from)))
                          _
                          (or_fail-IsQuiet invalid_address
                            (checksumed deps.get_address (some tx_res.from)))
                          (λ from w. refl)))))))

  successful_tx-IsDefined : (r : TxReceipt) → IsDefined (successful_tx deps p r)
  unfolding successful_tx
  successful_tx-IsDefined r = bind-IsDefined (find_response deps p) _ (λ found_res.
      bind-IsDefined (find_block deps p r) _ (λ found_block.
        bind-IsDefined (decode_tx_logs deps r) _ (λ logs.
          bind-IsDefined (or_fail no_object found_res) _ (λ tx_res.
            bind-IsDefined (or_fail no_object found_block) _ (λ block.
              bind-IsDefined (or_fail invalid_address (checksumed deps.get_address tx_res.to)) _
                (λ to.
                  bind-IsDefined
                    (or_fail invalid_address (checksumed deps.get_address (some tx_res.from))) _
                    (λ from w t h. ground (arith, h))))))))

  by_receipt-IsQuiet : (found : Option TxReceipt) → IsQuiet (by_receipt deps p found)
  by_receipt-IsQuiet none w = refl
  by_receipt-IsQuiet (some r) w = elim (Option-cases r.status) [
    | inl missing ↦ ground (arith, missing)
    | inr (k, status) ↦ ground (arith, status, successful_tx-IsQuiet r w)
  ]

  pub get_raw_transaction-IsQuiet : IsQuiet (get_raw_transaction deps p)
  unfolding get_raw_transaction
  get_raw_transaction-IsQuiet =
      bind-IsQuiet (on_db (deps.get_provider p.blockchain)) _
        (on_db-IsQuiet (deps.get_provider p.blockchain))
        (λ _. bind-IsQuiet (find_receipt deps p) _ find_receipt-IsQuiet by_receipt-IsQuiet)

  -- The receipt of the message, or one that the provider answered with.
  abbrev pub IsReceipt : TxReceipt → Type 0
  IsReceipt r =
      (p.tx_receipt ≡ some r)
      ⊎ ((c : D) × (d : D) × (deps.get_transaction_receipt p.blockchain p.hash c
            ≡ returns (some r) d))

  find_receipt-IsReceipt :
      (r : TxReceipt) (w t : App D) → find_receipt deps p w ≡ returns (some r) t → IsReceipt r
  unfolding find_receipt
  find_receipt-IsReceipt r w t h = elim (Option-cases p.tx_receipt) [
    | inr (s, given) ↦ inl (ground (arith, given, h))
    | inl asked ↦ elim (Outcome-cases (deps.get_transaction_receipt p.blockchain p.hash w.db)) [
      | inl (a, d, answer) ↦ inr (w.db, d, ground (arith, asked, answer, h))
      | inr (e, d, failed) ↦ ground (arith, asked, failed, h)
    ]
  ]

  by_receipt-none :
      (found : Option TxReceipt) (w t : App D)
      → by_receipt deps p found w ≡ returns none t
      → (r : TxReceipt) × (found ≡ some r) × (r.status ≡ some 0)
  by_receipt-none none w t h = ground (arith, h)
  by_receipt-none (some r) w t h = elim (Option-cases r.status) [
    | inl missing ↦ ground (arith, missing, h)
    | inr (zero, status) ↦ (r, refl, status)
    | inr (suc k, status) ↦ absurd (successful_tx-IsDefined r w t (ground (arith, status, h)))
  ]

  pub get_raw_transaction-none :
      (w t : App D)
      → get_raw_transaction deps p w ≡ returns none t
      → (r : TxReceipt) × IsReceipt r × (r.status ≡ some 0)
  unfolding get_raw_transaction
  get_raw_transaction-none w t h = elim (Outcome-cases (deps.get_provider p.blockchain w.db)) [
    | inr (e, d, failed) ↦ ground (arith, failed, h)
    | inl (_, d, provided) ↦ elim (Outcome-cases (find_receipt deps p (record w { db = d }))) [
      | inr (e, u, failed) ↦ ground (arith, provided, failed, h)
      | inl (found, u, answer) ↦
          let (r, same, failed) = by_receipt-none found u t (ground (arith, provided, answer, h)) in
          (
            r,
            find_receipt-IsReceipt r (record w { db = d }) u (answer ∙ ap (λ o. returns o u) same),
            failed,
          )
    ]
  ]
