-- ===== src/UseCases/BlockListener/Sequence.antt =====
-- BlockListener.ts: the blocks are taken one after the other, none left out and none twice.
use block_listener.Base.{
  ℕ, zero, suc, ◌+◌, ◌≤◌, String, ◌≡◌, refl, sym, ◌∙◌, ap, ◌⊎◌, inl, inr, List, [], ◌∷◌, ◌++◌,
  Option, none, some, Option-cases, arith,
}
use block_listener.Base.Task.{
  Thrown, Outcome, returns, throws, state_of, Outcome-cases, promise_all,
}
use block_listener.Values.{BlockchainId}
use block_listener.Entities.Token.{BlockProps}
use block_listener.Messages.{Message}
use block_listener.App.{
  App, Effect, sent, stored_wallet, stored_tx, stored_token, stored_contract, stored_block, publish,
}
use block_listener.UseCases.BlockListener.{
  Deps, BlockWithTransactions, block_props, prepare, announce_and_store, take_block,
  next_round_awaiter, listener_round, listener_rounds,
}

-- The heights of the stored blocks, newest first.
abbrev pub heights : List Effect → List String
heights [] = []
heights (stored_block b ∷ es) = b.height ∷ heights es
heights (sent m ∷ es) = heights es
heights (stored_wallet w ∷ es) = heights es
heights (stored_tx t ∷ es) = heights es
heights (stored_token t ∷ es) = heights es
heights (stored_contract c ∷ es) = heights es

-- The texts of the `j` numbers from `n` on, the last one first.
abbrev pub heights_from : {D : Type 0} → Deps D → ℕ → ℕ → List String
heights_from deps n zero = []
heights_from deps n (suc j) = deps.number_text (n + j) ∷ heights_from deps n j

-- Publishing stores no block, whatever the broker answers.
heights-promise_all :
    {D : Type 0} (publish_error : Message → D → Option Thrown) (ms : List Message) (s : App D)
    → heights (state_of (promise_all (publish publish_error) ms s)).effects ≡ heights s.effects
unfolding promise_all
heights-promise_all pe [] s = refl
heights-promise_all pe (m ∷ ms) s = ground (
  arith,
  heights-promise_all pe ms s,
  heights-promise_all pe ms (record s { effects = sent m ∷ s.effects }),
)

-- The provider answers with the block that it is asked for, and blocks are created and stored.
pub record IsServed {D : Type 0} (deps : Deps D) (blockchain : BlockchainId) : Type 0 where
  pub answers :
      (n : ℕ) (s t : D) (b : BlockWithTransactions)
      → deps.get_block_with_transactions blockchain n s ≡ returns (some b) t
      → b.number ≡ n
  pub creates : (p : BlockProps) → deps.create_block p ≡ some p
  pub stores : (p : BlockProps) (s : D) → (t : D) × (deps.save_block p s ≡ returns tt t)

module _ {D : Type 0} (deps : Deps D) (blockchain : BlockchainId)
    (served : IsServed deps blockchain) where
  pub effects-prepare :
      (b : BlockWithTransactions) (s : App D)
      → (state_of (prepare deps blockchain b s)).effects ≡ s.effects
  unfolding prepare
  effects-prepare b s = ground arith

  pub announce_and_store_lem :
      (b : BlockWithTransactions) (ms : List Message) (s : App D)
      → (t : App D) × (announce_and_store deps blockchain b ms s ≡ returns (b.number + 1) t)
        × (heights t.effects ≡ deps.number_text b.number ∷ heights s.effects)
  unfolding announce_and_store
  announce_and_store_lem b ms s =
      let p = block_props deps blockchain b in
      let u = state_of (promise_all (publish deps.publish_error) ms s) in
      let (d, stored) = served.stores p u.db in
      (
        record { db = d; effects = stored_block p ∷ u.effects },
        ground (arith, served.creates p, stored),
        ap (λ l. deps.number_text b.number ∷ l) (heights-promise_all deps.publish_error ms s),
      )

  -- A block is taken as a whole, or not at all.
  take_block_lem :
      (b : BlockWithTransactions) (s : App D)
      → ((e : Thrown) × (t : App D) × (take_block deps blockchain b s ≡ throws e t)
          × (t.effects ≡ s.effects))
        ⊎ ((t : App D) × (take_block deps blockchain b s ≡ returns (b.number + 1) t)
            × (heights t.effects ≡ deps.number_text b.number ∷ heights s.effects))
  unfolding take_block
  take_block_lem b s = elim (Outcome-cases (prepare deps blockchain b s)) [
    | inr (e, t, failed) ↦ inl (
      e,
      t,
      ground arith,
      ap (λ (r : Outcome (App D) (List Message)). (state_of r).effects) (sym failed)
          ∙ effects-prepare b s,
    )
    | inl (ms, t, ready) ↦
        let (u, taken, stored) = announce_and_store_lem b ms t in
        inr (
          u,
          ground arith,
          stored
              ∙ ap (λ es. deps.number_text b.number ∷ heights es)
                  (ap (λ (r : Outcome (App D) (List Message)). (state_of r).effects) (sym ready)
                    ∙ effects-prepare b s),
        )
  ]

  -- A round ends with the number that it began with and no block stored, or with the next number
  -- and the block stored.
  abbrev pub Moved : ℕ → App D → ℕ → App D → Type 0
  Moved n s m t =
      ((m ≡ n) × (heights t.effects ≡ heights s.effects))
      ⊎ ((m ≡ n + 1) × (heights t.effects ≡ deps.number_text n ∷ heights s.effects))

  waiting_round :
      (fuel n : ℕ) (s : App D) (d : D)
      → deps.get_block_with_transactions blockchain n s.db ≡ returns none d
      → (t : App D) × (listener_round deps blockchain fuel n s ≡ returns n t)
        × (t.effects ≡ s.effects)
  unfolding listener_round
  waiting_round fuel n s d nothing =
      (record s { db = state_of (next_round_awaiter deps blockchain fuel d) }, ground arith, refl)

  failing_round :
      (fuel n : ℕ) (s : App D) (e : Thrown) (d : D)
      → deps.get_block_with_transactions blockchain n s.db ≡ throws e d
      → (t : App D) × (listener_round deps blockchain fuel n s ≡ returns n t)
        × (t.effects ≡ s.effects)
  unfolding listener_round
  failing_round fuel n s e d failed =
      (record s { db = state_of (next_round_awaiter deps blockchain fuel d) }, ground arith, refl)

  block_round :
      (fuel n : ℕ) (s : App D) (b : BlockWithTransactions) (d : D)
      → deps.get_block_with_transactions blockchain n s.db ≡ returns (some b) d
      → (m : ℕ) × (t : App D) × (listener_round deps blockchain fuel n s ≡ returns m t)
        × Moved n s m t
  unfolding listener_round
  block_round fuel n s b d found =
      let same : b.number ≡ n = served.answers n s.db d b found in
      elim (take_block_lem b (record s { db = d })) [
        | inl (e, t, failed, effects) ↦ (n, t, ground arith, inl (refl, ap heights effects))
        | inr (t, taken, stored) ↦ (
          n + 1,
          t,
          ground arith,
          inr (refl, stored ∙ ap (λ k. deps.number_text k ∷ heights s.effects) same),
        )
      ]

  round_lem :
      (fuel n : ℕ) (s : App D)
      → (m : ℕ) × (t : App D) × (listener_round deps blockchain fuel n s ≡ returns m t)
        × Moved n s m t
  round_lem fuel n s = elim (Outcome-cases (deps.get_block_with_transactions blockchain n s.db)) [
    | inr (e, d, failed) ↦
        let (t, round, effects) = failing_round fuel n s e d failed in
        (n, t, round, inl (refl, ap heights effects))
    | inl (found, d, answered) ↦ elim (Option-cases found) [
      | inl nothing ↦
          let (t, round, effects) =
            waiting_round fuel n s d (answered ∙ ap (λ o. returns o d) nothing) in
          (n, t, round, inl (refl, ap heights effects))
      | inr (b, some_b) ↦ block_round fuel n s b d (answered ∙ ap (λ o. returns o d) some_b)
    ]
  ]

  pub heights_from-suc :
      (n j : ℕ) (hs : List String)
      → heights_from deps (n + 1) j ++ (deps.number_text n ∷ hs) ≡ heights_from deps n (suc j) ++ hs
  heights_from-suc n zero hs = ground arith
  heights_from-suc n (suc j) hs = ground (arith, heights_from-suc n j hs)

  -- While the provider answers with the blocks that it is asked for, and blocks can be created and
  -- stored, any number of rounds from block `n` on takes the blocks from `n` on in their order, as
  -- many as the rounds at most, none left out and none stored twice, whatever else fails: the
  -- provider, the receipts, the prices or the publications.
  pub listener_rounds-sequence :
      (fuel k n : ℕ) (s : App D)
      → (j : ℕ) × (t : App D) × (j ≤ k)
        × (listener_rounds deps blockchain fuel k n s ≡ returns (n + j) t)
        × (heights t.effects ≡ heights_from deps n j ++ heights s.effects)
  unfolding listener_rounds
  listener_rounds-sequence fuel zero n s = (0, s, omega arith, ground arith, refl)
  listener_rounds-sequence fuel (suc k) n s =
      let (m, t, round, moved) = round_lem fuel n s in
      let (j, u, bound, rest, stored) = listener_rounds-sequence fuel k m t in
      elim moved [
        | inl (same, heights_same) ↦ (
          j,
          u,
          omega arith,
          ground arith,
          stored
              ∙ ap (λ i. heights_from deps i j ++ heights t.effects) same
              ∙ ap (λ hs. heights_from deps n j ++ hs) heights_same,
        )
        | inr (next, one) ↦ (
          suc j,
          u,
          omega arith,
          ground arith,
          stored
              ∙ ap (λ i. heights_from deps i j ++ heights t.effects) next
              ∙ ap (λ hs. heights_from deps (n + 1) j ++ hs) one
              ∙ heights_from-suc n j (heights s.effects),
        )
      ]
