-- ===== src/UseCases/FindInternalTx/Range.antt =====
-- FindInternalTx.ts: the blocks that it asks for.
use block_listener.Base.{ℕ, ◌<◌, ◌+◌, String, List, [], ◌∷◌, some, ◌≡◌, refl, arith}
use block_listener.Base.Task.{returns, promise_all}
use block_listener.Values.{BlockchainId}
use block_listener.App.{App}
use block_listener.App.Steps.{on_db-returns}
use block_listener.UseCases.FindInternalTx.{
  Deps, StoredContract, abi, get_block_fetching_range, only_unique, flatten, get_contract_events,
  announce_events, execute,
}

-- The lists of no hashes, one for each contract.
abbrev nothing_of : {A : Type 0} → List A → List (List String)
nothing_of [] = []
nothing_of (x ∷ xs) = [] ∷ nothing_of xs

flatten-nothing_of : {A : Type 0} (xs : List A) → flatten (nothing_of xs) ≡ []
unfolding flatten
flatten-nothing_of [] = refl
flatten-nothing_of (x ∷ xs) = ground (arith, flatten-nothing_of xs)

module _ {A D : Type 0} (deps : Deps A D)
    (has_abi : (c : StoredContract A) → (a : A) × (abi deps.type_abi c ≡ some a))
    (provides : (b : BlockchainId) (d : D) → deps.get_provider b d ≡ returns tt d)
    (empty_range : (b : BlockchainId) (address : String) (a : A) (from to : ℕ) (d : D)
      → to < from
      → deps.query_filter b address a from to d ≡ returns [] d) where
  get_contract_events-empty :
      (c : StoredContract A) (number : ℕ) (d : D)
      → get_contract_events deps c (number + 100) number d ≡ returns [] d
  unfolding get_contract_events only_unique
  get_contract_events-empty c number d =
      let (a, is_abi) = has_abi c in
      ground (
        arith,
        is_abi,
        provides c.blockchain d,
        empty_range c.blockchain c.address a (number + 100) number d (omega arith),
      )

  promise_all-empty :
      (cs : List (StoredContract A)) (number : ℕ) (d : D)
      → promise_all (λ c. get_contract_events deps c (number + 100) number) cs d
        ≡ returns (nothing_of cs) d
  unfolding promise_all
  promise_all-empty [] number d = refl
  promise_all-empty (c ∷ cs) number d =
      ground (arith, get_contract_events-empty c number d, promise_all-empty cs number d)

  -- The range that is asked for begins a hundred blocks after the block at which it ends. If the
  -- contracts have an ABI, the provider and the repository answer, and a node has no events in a
  -- range that ends before it begins, then no block leads to a message, whatever the contracts did.
  pub execute-announces_nothing :
      (number : ℕ) (b : BlockchainId) (cs : List (StoredContract A)) (w : App D) (d : D)
      → deps.find_all w.db ≡ returns cs d
      → execute deps number b w ≡ returns tt (record w { db = d })
  unfolding execute announce_events get_block_fetching_range only_unique promise_all
  execute-announces_nothing number b [] w d found = ground (arith, found)
  execute-announces_nothing number b (c ∷ cs) w d found = ground (
    arith,
    found,
    on_db-returns (promise_all (λ c. get_contract_events deps c (number + 100) number) (c ∷ cs))
        (record w { db = d }) (nothing_of (c ∷ cs)) d (promise_all-empty (c ∷ cs) number d),
    flatten-nothing_of (c ∷ cs),
  )
