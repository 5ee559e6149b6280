-- ===== src/Pairs.antt =====
-- What FullPairDiscoverer.ts and SelectivePairDiscoverer.ts under App/UseCases/__deprecated share: the
-- factories of each blockchain, and the loop that stores the pairs found.
pub mod Full
pub mod Selective
pub mod Missing
pub mod Bases
pub mod Candidates
use block_listener.Base.{
  ℕ, String, Bool, List, [], ◌∷◌, ◌++◌, ◌===◌, Option, none, some, get_or, if◌then◌else◌,
}
use block_listener.Base.Task.{
  Thrown, Outcome, returns, throws, Task, pure, ◌>>=◌, ◌>>◌, promise_all,
}
use block_listener.Values.{BlockchainId, ContractType, blockchain_eq}
use block_listener.Rabbitmq.Objects.{Object}

-- `Contract<FactoryData>`, as far as it is read. Its ABI is the library's.
pub record Factory : Type 0 where
  pub blockchain : BlockchainId
  pub address : String
  pub dex : String

pub record PairData : Type 0 where
  pub dex : String
  pub token_a : String
  pub token_b : String

-- The properties that a pair's contract is created with.
pub record PairProps : Type 0 where
  pub address : String
  pub type : ContractType
  pub alias : String
  pub blockchain : BlockchainId
  pub created_at : ℕ
  pub pair : PairData

-- A map by blockchains.
abbrev pub ByChain : Type 0 → Type 0
ByChain V = List (BlockchainId × V)

unfoldable pub add_to_chain :
    BlockchainId → Factory → ByChain (List Factory) → ByChain (List Factory)
add_to_chain blockchain factory [] = (blockchain, factory ∷ []) ∷ []
add_to_chain blockchain factory ((b, others) ∷ rest) =
    if b === blockchain
    then (b, others ++ factory ∷ []) ∷ rest
    else (b, others) ∷ add_to_chain blockchain factory rest

-- The fold of `getFactoriesByBlockchain`.
unfoldable pub factories_by_chain : ByChain (List Factory) → List Factory → ByChain (List Factory)
unfolding add_to_chain
factories_by_chain by_chain [] = by_chain
factories_by_chain by_chain (factory ∷ factories) =
    factories_by_chain (add_to_chain factory.blockchain factory by_chain) factories

-- The database with what it is given to store, the newest list first.
pub record World (D : Type 0) : Type 0 where
  pub db : D
  pub saved : List (List PairProps)

module _ {D : Type 0} where
  abbrev pub in_world : {A : Type 0} → World D → Outcome D A → Outcome (World D) A
  in_world w (returns a d) = returns a (record w { db = d })
  in_world w (throws e d) = throws e (record w { db = d })

  abbrev pub on_db : {A : Type 0} → Task D A → Task (World D) A
  on_db task w = in_world w (task w.db)

  abbrev pub noted : List PairProps → World D → Outcome D ℕ → Outcome (World D) ℕ
  noted contracts w (returns n d) = returns n (record { db = d; saved = contracts ∷ w.saved })
  noted contracts w (throws e d) = throws e (record w { db = d })

  -- `contractRepository.saveMany`
  abbrev pub store_many : (List PairProps → Task D ℕ) → List PairProps → Task (World D) ℕ
  store_many save_many contracts w = noted contracts w (save_many contracts w.db)

module _ {D P : Type 0} (build_pair_contracts : P → BlockchainId → String → Task D PairProps)
    (save_many : List PairProps → Task D ℕ) where
  -- `savePairContracts`, for the factories of one blockchain and for all.
  unfoldable pub save_chain_pairs : BlockchainId → Object (List P) → Task (World D) (Unit {0})
  unfolding promise_all
  save_chain_pairs blockchain [] = pure tt
  save_chain_pairs blockchain ((dex, pairs) ∷ rest) = do
    contracts ← on_db (promise_all (λ pair. build_pair_contracts pair blockchain dex) pairs)
    store_many save_many contracts
    save_chain_pairs blockchain rest

  unfoldable pub save_pair_contracts : ByChain (Object (List P)) → Task (World D) (Unit {0})
  unfolding save_chain_pairs
  save_pair_contracts [] = pure tt
  save_pair_contracts ((blockchain, pairs_by_factory) ∷ rest) = do
    save_chain_pairs blockchain pairs_by_factory
    save_pair_contracts rest

module _ {D P : Type 0}
    (fetch_missing_pairs : BlockchainId → List Factory → Task D (Object (List P))) where
  -- The loop of `execute` over the blockchains.
  unfoldable pub fetch_chains : ByChain (List Factory) → Task D (ByChain (Object (List P)))
  fetch_chains [] = pure []
  fetch_chains ((blockchain, factories) ∷ rest) = do
    pairs ← fetch_missing_pairs blockchain factories
    others ← fetch_chains rest
    pure ((blockchain, pairs) ∷ others)
