-- ===== src/TxProcessor/Typed.antt =====
-- TxProcessor.ts with the strategies that the container binds: the type of a processed transaction and
-- its data.
use block_listener.Base.{
  ℕ, String, Bool, true, false, ◌≡◌, sym, subst, ◌⊎◌, inl, inr, [], ◌∷◌, some, Bool-cases,
  Option-cases, arith,
}
use block_listener.Base.Task.{returns, Task, Outcome-cases}
use block_listener.Values.{BlockchainId, TxType}
use block_listener.Entities.Tx.{
  TxProps, EthTransferData, DexSwapData, eth_transfer_data, dex_swap_data, is_smart_contract_call,
}
use block_listener.TxProcessor.{Processing, process, process_native_transfer}
use block_listener.TxProcessor.DexSwap.{method_of}
use block_listener.TxProcessor.DexSwap.Amounts.{Deps}
use block_listener.TxProcessor.DexSwap.Swap.{process_dex_swap, get_dex_swap_data}
use block_listener.TxProcessor.DexSwap.Untouched.{timeless, get_dex_swap_data-Keeps}

-- The transaction is the same whatever its time, or has become a transfer with the data of a transfer,
-- or a swap with the data of a swap.
abbrev pub IsTyped : TxProps → TxProps → Type 0
IsTyped before after =
    (after ≡ before)
    ⊎ ((d : EthTransferData) × (after
          ≡ record before { type = TxType.eth_transfer; content = eth_transfer_data d }))
    ⊎ ((d : DexSwapData) × (after
          ≡ record before { type = TxType.dex_swap; content = dex_swap_data d }))

module _ {D : Type 0} (deps : Deps D)
    (transfers : (d : EthTransferData)
      → (v : EthTransferData) × (deps.schemas.eth_transfer_value (eth_transfer_data d)
          ≡ eth_transfer_data v))
    (swaps : (d : DexSwapData)
      → (v : DexSwapData) × (deps.schemas.dex_swap_value (dex_swap_data d) ≡ dex_swap_data v)) where
  process_dex_swap-IsTyped :
      (s t : Processing D) (b : Bool)
      → process_dex_swap deps s ≡ returns b t
      → IsTyped (timeless s) (timeless t)
  unfolding process_dex_swap
  process_dex_swap-IsTyped s t b e = elim (Option-cases s.tx.raw.smart_contract_call) [
    | inl absent ↦ inl (ground (arith, absent, e))
    | inr (call, has) ↦ elim (Option-cases (method_of (some call))) [
      | inl other ↦ inl (ground (arith, has, other, e))
      | inr (method, known) ↦
          elim (Outcome-cases (get_dex_swap_data deps s.tx call.args method s)) [
            | inr (error, u, failed) ↦ ground (arith, has, known, failed, e)
            | inl (o, u, done) ↦
                let kept = get_dex_swap_data-Keeps deps s.tx call.args method s u o done in
                elim (Option-cases o) [
                  | inl nothing ↦ inl (ground (arith, has, known, done, nothing, e, kept))
                  | inr (d, found) ↦
                      let (v, valid) = swaps d in
                      inr (inr (v, ground (arith, has, known, done, found, e, kept, valid)))
                ]
          ]
    ]
  ]

  module _ (to_formatted : String → String)
      (usd_value : BlockchainId → String → ℕ → Task D (String × ℕ)) where
    native_strategy-cases :
        (s t : Processing D) (b : Bool)
        → process_native_transfer deps.schemas to_formatted usd_value s ≡ returns b t
        → ((b ≡ false) × (t ≡ s)) ⊎ ((b ≡ true) × IsTyped (timeless s) (timeless t))
    unfolding process_native_transfer
    native_strategy-cases s t b e = elim (Bool-cases (is_smart_contract_call s.tx)) [
      | inl call ↦ inl (ground (arith, call, e), ground (arith, call, e))
      | inr plain ↦
          let value = to_formatted s.tx.raw.value in
          elim (Outcome-cases (usd_value s.tx.blockchain value s.tx.raw.timestamp s.db)) [
            | inr (error, d, failed) ↦ ground (arith, plain, failed, e)
            | inl ((usd, date), d, priced) ↦
                let (v, valid) = transfers (record {
                  from = s.tx.raw.from;
                  to = s.tx.raw.to;
                  usd_value = usd;
                  value = value;
                }) in
                inr (
                  ground (arith, plain, priced, e),
                  inr (inl (v, ground (arith, plain, priced, e, valid))),
                )
          ]
    ]

    -- If the schemas of Joi give data of a kind for data of that kind, then whatever the services
    -- answer and leave, a processing by the two strategies of the container that returns has changed
    -- nothing of the transaction but its time, or has made it a transfer with the data of a transfer
    -- or a swap with the data of a swap, with nothing else changed but its time.
    pub process-IsTyped :
        (s t : Processing D)
        → process
            (process_native_transfer deps.schemas to_formatted usd_value
              ∷ process_dex_swap deps
              ∷ [])
            s
          ≡ returns tt t
        → IsTyped (timeless s) (timeless t)
    unfolding process
    process-IsTyped s t e =
        elim (Outcome-cases (process_native_transfer deps.schemas to_formatted usd_value s)) [
          | inr (error, u, failed) ↦ ground (arith, failed, e)
          | inl (b, u, native) ↦ elim (native_strategy-cases s u b native) [
            | inr (yes_b, typed) ↦
                let same : t ≡ u = ground (arith, native, yes_b, e) in
                subst (λ x. IsTyped (timeless s) (timeless x)) (sym same) typed
            | inl (no_b, same) ↦ elim (Outcome-cases (process_dex_swap deps s)) [
              | inr (error, v, failed) ↦ ground (arith, native, no_b, same, failed, e)
              | inl (c, v, swap) ↦
                  let end : t ≡ v = ground (arith, native, no_b, same, swap, e) in
                  subst (λ x. IsTyped (timeless s) (timeless x)) (sym end)
                    (process_dex_swap-IsTyped s v c swap)
            ]
          ]
        ]
