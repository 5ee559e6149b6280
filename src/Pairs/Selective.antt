-- ===== src/Pairs/Selective.antt =====
-- App/UseCases/__deprecated/SelectivePairDiscoverer.ts
use block_listener.Base.{
  ℕ, String, Bool, true, false, ◌||◌, ◌&&◌, not, any, List, [], ◌∷◌, ◌++◌, ◌===◌, string_eq, Option,
  if◌then◌else◌,
}
use Prim.Native.String
use block_listener.Base.Task.{Task, pure, or_fail, ◌>>=◌, ◌>>◌}
use block_listener.Values.{BlockchainId, ContractType, blockchain_eq}
use block_listener.Entities.Token.{TokenProps}
use block_listener.Entities.Tx.{validation_error}
use block_listener.Utils.Address.{to_lower_case}
use block_listener.Rabbitmq.Objects.{Object, assign}
use block_listener.Pairs.{
  Factory, PairProps, World, on_db, factories_by_chain, fetch_chains, save_pair_contracts,
}

pub record PairAndTokens : Type 0 where
  pub address : String
  pub token_a : TokenProps
  pub token_base : TokenProps

pub record Deps (D : Type 0) : Type 0 where
  -- `findContractsBy` with the type of a factory, and of a pair: the addresses of the pairs
  pub find_factories : Task D (List Factory)
  pub find_pairs : BlockchainId → Task D (List String)
  pub find_tokens : Task D (List TokenProps)
  pub save_many : List PairProps → Task D ℕ
  pub get_provider : BlockchainId → Task D (Unit {0})
  pub get_pair : Factory → String → String → Task D String
  -- `ethers.constants.AddressZero`
  pub zero_address : String
  -- `Contract.create`, `none` where the schema refuses
  pub create : PairProps → Option PairProps
  pub now : ℕ

-- The tokens of a blockchain that are bases, and those that are not, by `useAsBaseForPairDiscovery`.
unfoldable pub tokens_of : Bool → BlockchainId → List TokenProps → List TokenProps
tokens_of base blockchain [] = []
tokens_of base blockchain (token ∷ tokens) =
    let rest = tokens_of base blockchain tokens in
    let is_base = token.use_as_base_for_pair_discovery in
    if token.blockchain === blockchain && (if base then is_base else not is_base)
    then token ∷ rest
    else rest

module _ {D : Type 0} (deps : Deps D) where
  unfoldable pub skip_pair : String → List String → Bool
  unfolding to_lower_case
  skip_pair pair_address pairs =
      (pair_address === deps.zero_address)
      || any (λ pair. to_lower_case pair === to_lower_case pair_address) pairs

  unfoldable pub build_pair_contracts : PairAndTokens → BlockchainId → String → Task D PairProps
  build_pair_contracts pair blockchain dex = or_fail validation_error (
      deps.create (record {
        address = pair.address;
        type = ContractType.uniswap_pair_v2_like;
        alias = String.◌++◌ dex (
            String.◌++◌ ":"
              (String.◌++◌ pair.token_a.symbol (String.◌++◌ "-" pair.token_base.symbol)));
        blockchain = blockchain;
        created_at = deps.now;
        pair = record {
          dex = dex;
          token_a = pair.token_a.address;
          token_b = pair.token_base.address;
        };
      }))

  -- The inner loop, over the other tokens.
  unfoldable pub pairs_with :
      Factory → List String → TokenProps → List TokenProps → Task D (List PairAndTokens)
  unfolding skip_pair
  pairs_with factory pairs base_token [] = pure []
  pairs_with factory pairs base_token (other_token ∷ other_tokens) = do
    pair_address ← deps.get_pair factory base_token.address other_token.address
    rest ← pairs_with factory pairs base_token other_tokens
    pure (
        if skip_pair pair_address pairs
        then rest
        else record { address = pair_address; token_a = other_token; token_base = base_token }
          ∷ rest)

  -- The loop over the base tokens.
  unfoldable pub pairs_of :
      Factory → List String → List TokenProps → List TokenProps → Task D (List PairAndTokens)
  unfolding pairs_with
  pairs_of factory pairs [] other_tokens = pure []
  pairs_of factory pairs (base_token ∷ base_tokens) other_tokens = do
    found ← pairs_with factory pairs base_token other_tokens
    rest ← pairs_of factory pairs base_tokens other_tokens
    pure (found ++ rest)

  unfoldable pub fetch_factories :
      List String
      → List TokenProps
      → List TokenProps
      → Object (List PairAndTokens)
      → List Factory
      → Task D (Object (List PairAndTokens))
  unfolding pairs_of assign
  fetch_factories pairs base_tokens other_tokens addresses_by_factory [] = pure addresses_by_factory
  fetch_factories pairs base_tokens other_tokens addresses_by_factory (factory ∷ factories) = do
    found ← pairs_of factory pairs base_tokens other_tokens
    fetch_factories pairs base_tokens other_tokens (assign factory.dex found addresses_by_factory)
        factories

  unfoldable pub fetch_missing_pairs :
      List TokenProps → BlockchainId → List Factory → Task D (Object (List PairAndTokens))
  unfolding tokens_of fetch_factories
  fetch_missing_pairs tokens blockchain factories = do
    pairs ← deps.find_pairs blockchain
    deps.get_provider blockchain
    fetch_factories pairs (tokens_of true blockchain tokens) (tokens_of false blockchain tokens) []
        factories

  unfoldable pub execute : Task (World D) (Unit {0})
  unfolding factories_by_chain fetch_chains fetch_missing_pairs save_pair_contracts
      build_pair_contracts
  execute = do
    factories ← on_db deps.find_factories
    tokens ← on_db deps.find_tokens
    pairs ← on_db (fetch_chains (fetch_missing_pairs tokens) (factories_by_chain [] factories))
    save_pair_contracts build_pair_contracts deps.save_many pairs
