-- ===== src/Pairs/Full.antt =====
-- App/UseCases/__deprecated/FullPairDiscoverer.ts
use block_listener.Base.{ℕ, zero, suc, ◌+◌, ◌-◌, String, leb, List, [], ◌∷◌, Option, if◌then◌else◌}
use Prim.Native.String
use block_listener.Base.Task.{Task, pure, or_fail, ◌>>=◌, ◌>>◌}
use block_listener.Values.{BlockchainId, ContractType}
use block_listener.Entities.Tx.{validation_error}
use block_listener.Rabbitmq.Objects.{Object, assign}
use block_listener.Pairs.{
  Factory, PairProps, World, on_db, factories_by_chain, fetch_chains, save_pair_contracts,
}

pub record Deps (D : Type 0) : Type 0 where
  -- `findContractsBy` with the type of a factory
  pub find_factories : Task D (List Factory)
  pub count_dex_pairs : String → BlockchainId → Task D ℕ
  pub save_many : List PairProps → Task D ℕ
  pub get_provider : BlockchainId → Task D (Unit {0})
  -- the calls of a factory's contract
  pub all_pairs_length : Factory → Task D ℕ
  pub all_pairs : Factory → String → Task D String
  -- the calls of a pair's contract, and of a token's
  pub token0 : BlockchainId → String → Task D String
  pub token1 : BlockchainId → String → Task D String
  pub symbol : BlockchainId → String → Task D String
  -- `toHex`, by BigNumber
  pub to_hex : ℕ → String
  -- `Contract.create`, `none` where the schema refuses
  pub create : PairProps → Option PairProps
  pub now : ℕ

module _ {D : Type 0} (deps : Deps D) where
  unfoldable pub build_pair_contracts : String → BlockchainId → String → Task D PairProps
  build_pair_contracts address blockchain dex = do
    deps.get_provider blockchain
    token_a ← deps.token0 blockchain address
    token_b ← deps.token1 blockchain address
    symbol_a ← deps.symbol blockchain token_a
    symbol_b ← deps.symbol blockchain token_b
    or_fail validation_error (
        deps.create (record {
          address = address;
          type = ContractType.uniswap_pair_v2_like;
          alias =
              String.◌++◌ dex (String.◌++◌ ":" (String.◌++◌ symbol_a (String.◌++◌ "/" symbol_b)));
          blockchain = blockchain;
          created_at = deps.now;
          pair = record { dex = dex; token_a = token_a; token_b = token_b };
        }))

  -- The addresses of so many pairs, from an index on.
  unfoldable pub fetch_addresses : Factory → ℕ → ℕ → Task D (List String)
  fetch_addresses factory i zero = pure []
  fetch_addresses factory i (suc rounds) = do
    new_pair_address ← deps.all_pairs factory (deps.to_hex i)
    rest ← fetch_addresses factory (i + 1) rounds
    pure (new_pair_address ∷ rest)

  unfoldable pub fetch_factory :
      BlockchainId → Object (List String) → Factory → Task D (Object (List String))
  unfolding assign fetch_addresses
  fetch_factory blockchain addresses_by_factory factory = do
    factory_pairs_count ← deps.count_dex_pairs factory.dex blockchain
    all_pairs_length ← deps.all_pairs_length factory
    (if leb all_pairs_length factory_pairs_count then pure addresses_by_factory else (do
      addresses ←
          fetch_addresses factory factory_pairs_count (all_pairs_length - factory_pairs_count)
      pure (assign factory.dex addresses addresses_by_factory)))

  unfoldable pub fetch_factories :
      BlockchainId → Object (List String) → List Factory → Task D (Object (List String))
  unfolding fetch_factory
  fetch_factories blockchain addresses_by_factory [] = pure addresses_by_factory
  fetch_factories blockchain addresses_by_factory (factory ∷ factories) = do
    addresses ← fetch_factory blockchain addresses_by_factory factory
    fetch_factories blockchain addresses factories

  unfoldable pub fetch_missing_pairs : BlockchainId → List Factory → Task D (Object (List String))
  unfolding fetch_factories
  fetch_missing_pairs blockchain factories = do
    deps.get_provider blockchain
    fetch_factories blockchain [] factories

  unfoldable pub execute : Task (World D) (Unit {0})
  unfolding factories_by_chain fetch_chains fetch_missing_pairs save_pair_contracts
      build_pair_contracts
  execute = do
    factories ← on_db deps.find_factories
    pairs ← on_db (fetch_chains fetch_missing_pairs (factories_by_chain [] factories))
    save_pair_contracts build_pair_contracts deps.save_many pairs
