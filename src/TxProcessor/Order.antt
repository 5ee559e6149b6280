-- ===== src/TxProcessor/Order.antt =====
-- TxProcessor.ts and its strategies: which processor decides, and what it makes of a transaction.
use block_listener.Base.{
  if◌then◌else◌, ℕ, String, ◌≡◌, refl, true, false, List, [], ◌∷◌, ◌++◌, arith,
}
use block_listener.Base.Task.{Thrown, returns, throws, Task}
use block_listener.Values.{BlockchainId, TxType}
use block_listener.Entities.Tx.{TxSchemas, eth_transfer_data, not_supported, is_smart_contract_call}
use block_listener.TxProcessor.{
  Processing, Strategy, process, process_native_transfer, process_uniswap_v3_swap, has_method,
  uniswap_v3_methods,
}

module _ {D : Type 0} where
  -- Every strategy passes the state on as it is and returns nothing.
  abbrev pub AllPass : List (Strategy D) → Processing D → Type 0
  AllPass [] s = Unit
  AllPass (f ∷ fs) s = (f s ≡ returns false s) × AllPass fs s

  process-append :
      (before after : List (Strategy D)) (s : Processing D)
      → AllPass before s
      → process (before ++ after) s ≡ process after s
  unfolding process
  process-append [] after s h = refl
  process-append (g ∷ before) after s h = rw h.0 (process-append before after s h.1)

  -- After strategies that pass, the first strategy that returns the transaction decides: those
  -- after it are not called.
  pub process_first :
      (before after : List (Strategy D)) (f : Strategy D) (s t : Processing D)
      → AllPass before s
      → f s ≡ returns true t
      → process (before ++ f ∷ after) s ≡ returns tt t
  unfolding process
  process_first before after f s t h e = rw (process-append before (f ∷ after) s h, e) refl

  -- After strategies that pass, a strategy that throws ends the processing with its error: those
  -- after it are not called.
  pub process_first-throws :
      (before after : List (Strategy D)) (f : Strategy D) (s t : Processing D) (e : Thrown)
      → AllPass before s
      → f s ≡ throws e t
      → process (before ++ f ∷ after) s ≡ throws e t
  unfolding process
  process_first-throws before after f s t e h q = rw (process-append before (f ∷ after) s h, q) refl

  -- If every strategy passes, the transaction stays as it is.
  pub process_none :
      (fs : List (Strategy D)) (s : Processing D) → AllPass fs s → process fs s ≡ returns tt s
  unfolding process
  process_none [] s h = refl
  process_none (f ∷ fs) s h = rw h.0 (process_none fs s h.1)

  module _ (schemas : TxSchemas) (s : Processing D) where
    -- While the price service answers, a transaction without a contract call becomes a transfer from
    -- its sender to its receiver, and its timestamp is what the price service left in its date. One
    -- with a call is passed on as it is.
    pub process_native_transfer_lem :
        (to_formatted : String → String)
        (usd_value : BlockchainId → String → ℕ → Task D (String × ℕ)) (usd : String) (date : ℕ)
        (d : D)
        → usd_value s.tx.blockchain (to_formatted s.tx.raw.value) s.tx.raw.timestamp s.db
          ≡ returns (usd, date) d
        → process_native_transfer schemas to_formatted usd_value s ≡ (
            if is_smart_contract_call s.tx
            then returns false s
            else returns true (record {
              db = d;
              tx = record (s.tx) {
                type = TxType.eth_transfer;
                content = schemas.eth_transfer_value (
                    eth_transfer_data (record {
                      from = s.tx.raw.from;
                      to = s.tx.raw.to;
                      usd_value = usd;
                      value = to_formatted s.tx.raw.value;
                    }));
                raw = record (s.tx.raw) { timestamp = date };
              };
            }))
    unfolding process_native_transfer
    process_native_transfer_lem to_formatted usd_value usd date d priced = ground arith

    -- The processor of Uniswap V3 swaps never processes one: it throws on every transaction that it
    -- takes, with the type of the transaction changed.
    pub process_uniswap_v3_swap-throws :
        has_method uniswap_v3_methods s.tx.raw.smart_contract_call ≡ true
        → process_uniswap_v3_swap schemas s
          ≡ throws not_supported
              (record s { tx = record (s.tx) { type = TxType.dex_swap_uniswap_v3 } })
    unfolding process_uniswap_v3_swap
    process_uniswap_v3_swap-throws h = rw h
