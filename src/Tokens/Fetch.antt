-- ===== src/Tokens/Fetch.antt =====
-- App/Services/TokenService.ts: `fetchTokensData`.
use Prim.Native.String.{◌++◌}
use block_listener.Base.{
  ℕ, zero, suc, String, Bool, true, false, not, List, [], ◌∷◌, Option, none, some, if◌then◌else◌,
  ◌===◌, nat_eq, string_eq,
}
use block_listener.Base.Segments.{length}
use block_listener.Base.Task.{
  Thrown, Task, pure, throw, ◌>>=◌, ◌>>◌, catch, promise_all, or_fail, map_task,
}
use block_listener.Values.{BlockchainId}
use block_listener.Entities.Token.{TokenProps}
use block_listener.Utils.Address.{invalid_address}
use block_listener.Rabbitmq.Objects.{Object}
use block_listener.Tokens.Multicall.{ContractValue, CallReturn, Selected, select}
use block_listener.Tokens.{
  Deps, ContractCall, error_of, defined, token_cache_key, some_with_address, find_with_address,
  get_tokens_from_db_and_cache,
}

unfoldable pub standard_key : String → String
standard_key address = "std_" ++ address

unfoldable pub bytes32_key : String → String
bytes32_key address = "b32_" ++ address

abbrev pub build_name_symbol_decimals_erc20_call : String → ContractCall
unfolding standard_key
build_name_symbol_decimals_erc20_call address = record {
  reference = standard_key address;
  contract_address = address;
  methods = "name" ∷ "symbol" ∷ "decimals" ∷ [];
}

abbrev pub build_bytes32_name_symbol_decimals_erc20_call : String → ContractCall
unfolding bytes32_key
build_bytes32_name_symbol_decimals_erc20_call address = record {
  reference = bytes32_key address;
  contract_address = address;
  methods = "name" ∷ "symbol" ∷ [];
}

unfoldable pub token_calls : List String → List ContractCall
token_calls [] = []
token_calls (address ∷ addrs) =
    build_name_symbol_decimals_erc20_call address
    ∷ build_bytes32_name_symbol_decimals_erc20_call address
    ∷ token_calls addrs

abbrev pub invalid_token_data : Thrown
invalid_token_data = error_of "Error" "Invalid token data received"

abbrev pub undefined_results : Thrown
undefined_results =
    error_of "TypeError" "Cannot read properties of undefined (reading 'callsReturnContext')"

abbrev pub invalid_bytes32 : Thrown
invalid_bytes32 = error_of "Error" "invalid bytes32 string"

abbrev pub validation_failed : Thrown
validation_failed = error_of "ValidationError" "Invalid token"

-- A list is true, also the empty one.
abbrev pub truthy : Option Selected → Bool
truthy none = false
truthy (some (Selected.one (ContractValue.text t))) = not (t === "")
truthy (some (Selected.one (ContractValue.number n))) = not (n === 0)
truthy (some (Selected.one ContractValue.other)) = true
truthy (some (Selected.many vs)) = true

abbrev pub element : ℕ → List (Option Selected) → Option Selected
element i [] = none
element zero (v ∷ vs) = v
element (suc i) (v ∷ vs) = element i vs

abbrev pub numeric : Option Selected → Option ℕ
numeric none = none
numeric (some (Selected.one (ContractValue.text t))) = none
numeric (some (Selected.one (ContractValue.number n))) = some n
numeric (some (Selected.one ContractValue.other)) = none
numeric (some (Selected.many vs)) = none

module _ {D : Type 0} (deps : Deps D) (blockchain : BlockchainId) where
  open deps use {get_address}

  -- `value || (value32 && parseBytes32String(parsed))`
  abbrev pub or_bytes32 :
      {S : Type 0} → Option Selected → Option Selected → Option Selected → Task S (Option Selected)
  or_bytes32 value value32 parsed =
      if truthy value
      then pure value
      else if truthy value32
      then (do
        t ← or_fail invalid_bytes32 (deps.parse_bytes32_string parsed)
        pure (some (Selected.one (ContractValue.text t))))
      else pure value32

  -- The checks on the fetched values, and `Token.create`.
  abbrev pub checked_token :
      {S : Type 0} → String → Option Selected → Option Selected → Option ℕ → Task S TokenProps
  checked_token address (some name) (some symbol) (some decimals) =
      if not (truthy (some name))
      then throw invalid_token_data
      else if not (truthy (some symbol))
      then throw invalid_token_data
      else or_fail validation_failed (
          deps.create_fetched (record {
            address = address;
            blockchain = blockchain;
            decimals = decimals;
            name = name;
            symbol = symbol;
          }))
  checked_token address (some name) (some symbol) none = throw invalid_token_data
  checked_token address (some name) none decimals = throw invalid_token_data
  checked_token address none symbol decimals = throw invalid_token_data

  -- A token from what the two calls of its address returned.
  unfoldable pub fetched_token :
      {S : Type 0} → Object (List CallReturn) → String → Task S TokenProps
  unfolding select standard_key bytes32_key
  fetched_token results address = do
    standard ←
        or_fail undefined_results
          (select results (standard_key address) ("name" ∷ "symbol" ∷ "decimals" ∷ []))
    bytes32 ←
        or_fail undefined_results (select results (bytes32_key address) ("name" ∷ "symbol" ∷ []))
    name ← or_bytes32 (element 0 standard) (element 0 bytes32) (element 0 bytes32)
    symbol ← or_bytes32 (element 1 standard) (element 1 bytes32) (element 0 bytes32)
    checked_token address name symbol (numeric (element 2 standard))

  -- Errors of the cache are dropped.
  unfoldable pub remember_token : List TokenProps → TokenProps → Task D (Unit {0})
  unfolding some_with_address token_cache_key
  remember_token known token = do
    found ← or_fail invalid_address (some_with_address get_address token.address known)
    (if found
        then pure tt
        else catch (deps.cache_set (token_cache_key blockchain token.address) token) (λ _. pure tt))

  unfoldable pub fetch_by_multicall : List String → List TokenProps → Task D (List TokenProps)
  unfolding token_calls map_task fetched_token promise_all remember_token
  fetch_by_multicall token_addrs known = do
    deps.get_multicall_provider blockchain
    results ← deps.multicall blockchain (token_calls token_addrs)
    tokens ← map_task (fetched_token results) token_addrs
    promise_all (remember_token known) tokens
    pure tokens

  -- The known tokens in the order of the addresses.
  abbrev pub known_in_order : List String → List TokenProps → Task D (List TokenProps)
  unfolding map_task find_with_address
  known_in_order token_addrs known = do
    found ←
        map_task (λ a. or_fail invalid_address (find_with_address get_address a known)) token_addrs
    pure (defined found)

  abbrev pub known_or_fetched : List String → List TokenProps → Task D (List TokenProps)
  known_or_fetched token_addrs known =
      if length known === length token_addrs
      then known_in_order token_addrs known
      else fetch_by_multicall token_addrs known

  unfoldable pub fetch_tokens_data : List String → Task D (List TokenProps)
  unfolding get_tokens_from_db_and_cache fetch_by_multicall
  fetch_tokens_data token_addrs = do
    known ← get_tokens_from_db_and_cache deps blockchain token_addrs
    known_or_fetched token_addrs known
