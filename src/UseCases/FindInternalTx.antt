-- ===== src/UseCases/FindInternalTx.antt =====
-- App/UseCases/__deprecated/FindInternalTx.ts, with `onlyUniqueFilter` and `flattenReducer` of
-- App/Utils/Array.ts. The throttle starts its tasks in their order.
pub mod Range
use block_listener.Base.{
  ℕ, ◌+◌, ◌/◌, ◌%◌, String, Bool, false, ltb, List, [], ◌∷◌, ◌++◌, ◌===◌, string_eq, any, Option,
  none, some, if◌then◌else◌,
}
use block_listener.Base.Task.{
  Thrown, Outcome, returns, throws, Task, pure, throw, or_fail, ◌>>=◌, ◌>>◌, promise_all,
}
use block_listener.Values.{BlockchainId, ContractType}
use block_listener.Messages.{Message, tx_discovered}
use block_listener.App.{App, on_db, publish}

-- A contract of the repository, with the ABIs as a type `A` of the library.
pub record StoredContract (A : Type 0) : Type 0 where
  pub address : String
  pub blockchain : BlockchainId
  pub type : ContractType
  pub custom_abi : Option A

-- `Contract.abi`, over `contractTypeToAbi`.
abbrev pub abi : {A : Type 0} → (ContractType → Option A) → StoredContract A → Option A
abi type_abi c = elim c.custom_abi [ some custom ↦ some custom | none ↦ type_abi c.type ]

pub record BlockFetchingConfig : Type 0 where
  pub from_block : ℕ
  pub to_block : ℕ
  pub skip : Bool
  pub requests_per_second : ℕ

abbrev pub block_batch_size : ℕ
block_batch_size = 100

unfoldable pub get_block_fetching_range : ℕ → BlockFetchingConfig
get_block_fetching_range number = record {
  from_block = number + block_batch_size;
  to_block = number;
  skip = ltb 0 (number % (block_batch_size / 2));
  requests_per_second = 100;
}

-- `values.filter(onlyUniqueFilter)`, over the values before them.
unfoldable pub only_unique : List String → List String → List String
only_unique seen [] = []
only_unique seen (v ∷ values) =
    let rest = only_unique (v ∷ seen) values in if any (λ u. u === v) seen then rest else v ∷ rest

-- `bulks.reduce(flattenReducer, [])`
unfoldable pub flatten : List (List String) → List String
flatten [] = []
flatten (bulk ∷ bulks) = bulk ++ flatten bulks

abbrev pub no_abi : Thrown
no_abi = record {
  is_direct_to_dead = false;
  name = "Error";
  message = "This contract has no ABI";
  stack = "";
}

pub record Deps (A D : Type 0) : Type 0 where
  pub type_abi : ContractType → Option A
  -- `contractRepository.findAll`
  pub find_all : Task D (List (StoredContract A))
  pub get_provider : BlockchainId → Task D (Unit {0})
  -- the hashes of the events of `queryFilter`
  pub query_filter : BlockchainId → String → A → ℕ → ℕ → Task D (List String)
  pub publish_error : Message → D → Option Thrown

module _ {A D : Type 0} (deps : Deps A D) where
  unfoldable pub get_contract_events : StoredContract A → ℕ → ℕ → Task D (List String)
  unfolding only_unique
  get_contract_events contract from_block to_block = do
    contract_abi ← or_fail no_abi (abi deps.type_abi contract)
    deps.get_provider contract.blockchain
    events ← deps.query_filter contract.blockchain contract.address contract_abi from_block to_block
    pure (only_unique [] events)

  abbrev pub internal_tx : BlockchainId → String → Message
  internal_tx blockchain hash = tx_discovered (record {
    blockchain = blockchain;
    hash = hash;
    save_unknown = none;
    save_destination_address = none;
    tx_res = none;
    tx_receipt = none;
    block = none;
  })

  -- The contracts' events, when there are contracts.
  unfoldable pub announce_events :
      BlockFetchingConfig → BlockchainId → List (StoredContract A) → Task (App D) (Unit {0})
  unfolding get_contract_events flatten
  announce_events range blockchain [] = pure tt
  announce_events range blockchain (c ∷ contracts) = do
    tx_hashes_bulks ← on_db (
        promise_all (λ contract. get_contract_events contract range.from_block range.to_block)
          (c ∷ contracts))
    promise_all (λ hash. publish deps.publish_error (internal_tx blockchain hash))
        (only_unique [] (flatten tx_hashes_bulks))
    pure tt

  unfoldable pub execute : ℕ → BlockchainId → Task (App D) (Unit {0})
  unfolding announce_events get_block_fetching_range
  execute number blockchain = do
    contracts ← on_db deps.find_all
    let range = get_block_fetching_range number
    if range.skip then pure tt else announce_events range blockchain contracts
