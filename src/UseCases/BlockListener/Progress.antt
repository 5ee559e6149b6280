-- ===== src/UseCases/BlockListener/Progress.antt =====
-- BlockListener.ts: every round takes a block while the provider and the price service answer.
use block_listener.Base.{
  ℕ, zero, suc, ◌+◌, ◌*◌, ◌%◌, ◌≡◌, refl, sym, map, ◌∙◌, ap, inl, inr, List, [], ◌∷◌, ◌++◌, some,
  nat_beq, Bool-cases, arith,
}
use block_listener.Base.Task.{
  Outcome, returns, Task, catch, pure, or_fail, ◌>>=◌, state_of, Outcome-cases,
}
use block_listener.Values.{BlockchainId}
use block_listener.Messages.{Message, TxReceipt}
use block_listener.App.{App, on_db}
use block_listener.UseCases.BlockListener.Receipts.{invalid_big_number, map_raw_receipts}
use block_listener.UseCases.BlockListener.{
  Deps, BlockWithTransactions, prepare, take_block, listener_round, listener_rounds,
  get_transaction_receipts, get_tx_discovered_events, native_token_price_cache_controller, tx_event,
}
use block_listener.UseCases.BlockListener.Sequence.{
  heights, heights_from, IsServed, effects-prepare, announce_and_store_lem, heights_from-suc,
}

-- The provider has every block, and the price service every price.
pub record IsAnswered {D : Type 0} (deps : Deps D) (blockchain : BlockchainId) : Type 0 where
  pub has_block :
      (n : ℕ) (s : D)
      → (b : BlockWithTransactions) × (t : D) × (deps.get_block_with_transactions blockchain n s
          ≡ returns (some b) t)
  pub has_price :
      (time : ℕ) (s : D) → (t : D) × (deps.get_native_price blockchain time s ≡ returns tt t)

-- `catch` with a value in place of the error returns.
caught_returns :
    {S A : Type 0} (m : Task S A) (default_value : A) (s : S)
    → (a : A) × (t : S) × (catch m (λ _. pure default_value) s ≡ returns a t)
caught_returns m default_value s = elim (Outcome-cases (m s)) [
  | inl (a, t, done) ↦ (a, t, ground arith)
  | inr (e, t, failed) ↦ (default_value, t, ground arith)
]

module _ {D : Type 0} (deps : Deps D) (blockchain : BlockchainId)
    (served : IsServed deps blockchain) (answered : IsAnswered deps blockchain) where
  receipts_or_none :
      (b : BlockWithTransactions) (s : App D)
      → (rs : List TxReceipt) × (t : App D) × (get_transaction_receipts deps blockchain b s
          ≡ returns rs t)
  unfolding get_transaction_receipts
  receipts_or_none b s =
      caught_returns
        (on_db (deps.get_receipts blockchain b.number) >>= λ raw.
          or_fail invalid_big_number (map_raw_receipts deps.number deps.is_big_number b.number raw))
        [] s

  prepare_returns :
      (b : BlockWithTransactions) (s : App D)
      → (ms : List Message) × (t : App D) × (prepare deps blockchain b s ≡ returns ms t)
  unfolding prepare get_tx_discovered_events native_token_price_cache_controller
  prepare_returns b s = elim (Bool-cases (nat_beq (b.number % 50) 0)) [
    | inr skipped ↦
        let (rs, t, given) = receipts_or_none b s in
        (map (tx_event blockchain b rs) b.transactions, t, ground arith)
    | inl asked ↦
        let (d, priced) = answered.has_price (b.timestamp * 1000) s.db in
        let (rs, t, given) = receipts_or_none b (record s { db = d }) in
        (map (tx_event blockchain b rs) b.transactions, t, ground arith)
  ]

  take_block_returns :
      (b : BlockWithTransactions) (s : App D)
      → (t : App D) × (take_block deps blockchain b s ≡ returns (b.number + 1) t)
        × (heights t.effects ≡ deps.number_text b.number ∷ heights s.effects)
  unfolding take_block
  take_block_returns b s =
      let (ms, t, ready) = prepare_returns b s in
      let (u, taken, stored) = announce_and_store_lem deps blockchain served b ms t in
      (
        u,
        ground arith,
        stored
            ∙ ap (λ es. deps.number_text b.number ∷ heights es)
                (ap (λ (r : Outcome (App D) (List Message)). (state_of r).effects) (sym ready)
                  ∙ effects-prepare deps blockchain served b s),
      )

  round_returns :
      (fuel n : ℕ) (s : App D)
      → (t : App D) × (listener_round deps blockchain fuel n s ≡ returns (n + 1) t)
        × (heights t.effects ≡ deps.number_text n ∷ heights s.effects)
  unfolding listener_round
  round_returns fuel n s =
      let (b, d, found) = answered.has_block n s.db in
      let same : b.number ≡ n = served.answers n s.db d b found in
      let (t, taken, stored) = take_block_returns b (record s { db = d }) in
      (t, ground arith, stored ∙ ap (λ k. deps.number_text k ∷ heights s.effects) same)

  -- While the provider answers with every block that it is asked for, the price service answers, and
  -- blocks can be created and stored, every round stores the next block: after `k` rounds from block
  -- `n` on the blocks up to the one before `n + k` are stored in their order, whether or not the
  -- receipts can be had and the messages published.
  pub listener_rounds-progress :
      (fuel k n : ℕ) (s : App D)
      → (t : App D) × (listener_rounds deps blockchain fuel k n s ≡ returns (n + k) t)
        × (heights t.effects ≡ heights_from deps n k ++ heights s.effects)
  unfolding listener_rounds
  listener_rounds-progress fuel zero n s = (s, ground arith, refl)
  listener_rounds-progress fuel (suc k) n s =
      let (t, round, one) = round_returns fuel n s in
      let (u, rest, stored) = listener_rounds-progress fuel k (n + 1) t in
      (
        u,
        ground arith,
        stored
            ∙ ap (λ hs. heights_from deps (n + 1) k ++ hs) one
            ∙ heights_from-suc deps blockchain served n k (heights s.effects),
      )
