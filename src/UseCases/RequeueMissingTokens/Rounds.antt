-- ===== src/UseCases/RequeueMissingTokens/Rounds.antt =====
-- RequeueMissingTokens.ts: a round that fails.
use block_listener.Base.{String, ◌∙◌, ℕ, suc, List, [], ◌∷◌, ◌++◌, ◌≡◌, sym, subst, inl, inr, arith}
use block_listener.Base.Task.{Task, Thrown, returns, throws, Outcome-cases}
use block_listener.Base.Runs.{returns->>=, throws->>=}
use block_listener.Repository.SwapTokens.{
  undefined_addresses, first_addresses, get_all_tokens_found_in_swaps,
}
use block_listener.Values.{BlockchainId}
use block_listener.App.{App, on_db}
use block_listener.App.Steps.{on_db-throws}
use block_listener.UseCases.RequeueMissingTokens.{
  Deps, requeue_listed, process_blockchain, process_blockchains, process_all_blockchains_and_repeat,
}

module _ {D : Type 0} (deps : Deps D) where
  process_blockchains-append :
      (bs cs : List BlockchainId) (w v : App D) (e : Thrown) (t : App D)
      → process_blockchains deps bs w ≡ returns tt v
      → process_blockchains deps cs v ≡ throws e t
      → process_blockchains deps (bs ++ cs) w ≡ throws e t
  unfolding process_blockchains
  process_blockchains-append [] cs w v e t before failed = ground (arith, before, failed)
  process_blockchains-append (b ∷ bs) cs w v e t before failed =
      elim (Outcome-cases (process_blockchain deps b w)) [
        | inr (error, u, thrown) ↦ ground (arith, before, thrown)
        | inl (x, u, done) ↦
            ground (arith, before, done, process_blockchains-append bs cs u v e t, failed)
      ]

  failed_round :
      (timers : ℕ) (w t : App D) (e : Thrown)
      → process_blockchains deps deps.enabled_blockchains w ≡ throws e t
      → process_all_blockchains_and_repeat deps (suc timers) w ≡ (0, t)
  unfolding process_all_blockchains_and_repeat
  failed_round timers w t e failed = ground (arith, failed)

  -- When the query for the tokens in the swaps of one blockchain fails, the blockchains after it
  -- are not looked at, and no timer is set: whatever number of rounds is waited for, there is none
  -- after this one.
  pub process_all_blockchains_and_repeat-stops :
      (before after : List BlockchainId) (b : BlockchainId) (timers : ℕ) (w v : App D) (e : Thrown)
      (d : D)
      → deps.enabled_blockchains ≡ before ++ b ∷ after
      → process_blockchains deps before w ≡ returns tt v
      → deps.get_all_tokens_found_in_swaps b v.db ≡ throws e d
      → process_all_blockchains_and_repeat deps (suc timers) w ≡ (0, record v { db = d })
  unfolding process_all_blockchains_and_repeat process_blockchains process_blockchain
  process_all_blockchains_and_repeat-stops before after b timers w v e d enabled first refused =
      let t = record v { db = d } in
      let failed : process_blockchains deps (b ∷ after) v ≡ throws e t =
        throws->>= (process_blockchain deps b) (λ _. process_blockchains deps after) v t e
          (throws->>= (on_db (deps.get_all_tokens_found_in_swaps b)) (requeue_listed deps b) v t e
            (on_db-throws (deps.get_all_tokens_found_in_swaps b) v e d refused)) in
      failed_round timers w t e (
        subst (λ bs. process_blockchains deps bs w ≡ throws e t) (sym enabled)
          (process_blockchains-append before (b ∷ after) w v e t first failed))

  -- Over the repository of transactions: while a blockchain that is enabled has no swap, the first
  -- round ends with it, whatever the blockchains before it have, and it is the last: the query
  -- gives no document, and its addresses are read all the same.
  pub process_all_blockchains_and_repeat-no_swaps :
      (aggregate : BlockchainId → Task D (List (BlockchainId × List String)))
      (before after : List BlockchainId) (b : BlockchainId) (timers : ℕ) (w v : App D) (d : D)
      → ((c : BlockchainId) (u : D)
          → deps.get_all_tokens_found_in_swaps c u ≡ get_all_tokens_found_in_swaps aggregate c u)
      → deps.enabled_blockchains ≡ before ++ b ∷ after
      → process_blockchains deps before w ≡ returns tt v
      → aggregate b v.db ≡ returns [] d
      → process_all_blockchains_and_repeat deps (suc timers) w ≡ (0, record v { db = d })
  unfolding get_all_tokens_found_in_swaps
  process_all_blockchains_and_repeat-no_swaps aggregate before after b timers w v d stands_on
        enabled first nothing =
      process_all_blockchains_and_repeat-stops before after b timers w v undefined_addresses d
        enabled first
        (stands_on b v.db ∙ returns->>= (aggregate b) first_addresses v.db d [] nothing)
