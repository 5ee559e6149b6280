-- ===== src/Tokens/PairPrice.antt =====
-- App/Services/TokenService.ts: `fetchTokenDataWithPrice`.
use block_listener.Base.{
  ℕ, zero, suc, String, Bool, List, [], ◌∷◌, Option, none, some, if◌then◌else◌,
}
use block_listener.Base.Task.{Thrown, Task, pure, throw, ◌>>=◌, ◌>>◌, or_fail}
use block_listener.Values.{BlockchainId, blockchain_eq}
use block_listener.Entities.Token.{TokenProps}
use block_listener.Utils.Address.{is_same_address, invalid_address}
use block_listener.Tokens.Multicall.{ContractValue, Selected, select}
use block_listener.Tokens.{Deps, ContractCall, Service, ask, error_of, get_wrapped_token}
use block_listener.Tokens.Fetch.{element, fetch_tokens_data, undefined_results}

-- `reserves[i]` of a list
abbrev pub nth_value : ℕ → List ContractValue → Option Selected
nth_value i [] = none
nth_value zero (v ∷ vs) = some (Selected.one v)
nth_value (suc i) (v ∷ vs) = nth_value i vs

abbrev pub text_of : Option Selected → Option String
text_of none = none
text_of (some (Selected.one (ContractValue.text t))) = some t
text_of (some (Selected.one (ContractValue.number n))) = none
text_of (some (Selected.one ContractValue.other)) = none
text_of (some (Selected.many vs)) = none

abbrev pub factory_not_found : Thrown
factory_not_found = error_of "Error" "Uniswap Factory not found"

abbrev pub undefined_property : Thrown
undefined_property = error_of "TypeError" "Cannot read properties of undefined"

abbrev pub invalid_value : Thrown
invalid_value = error_of "Error" "Invalid value"

abbrev pub pair_calls : String → List ContractCall
pair_calls pair_address =
    record {
      reference = pair_address;
      contract_address = pair_address;
      methods = "getReserves" ∷ "token0" ∷ "token1" ∷ [];
    }
    ∷ []

module _ {D : Type 0} (deps : Deps D) (b : BlockchainId) where
  open deps use {get_address, to_formatted, divided_by}

  -- `BN(reserves[i]).toString()`
  abbrev pub reserve : {S : Type 0} → Option Selected → ℕ → Task S String
  reserve none i = throw undefined_property
  reserve (some (Selected.many vs)) i = or_fail invalid_value (deps.big_number (nth_value i vs))
  reserve (some (Selected.one v)) i =
      or_fail invalid_value (deps.big_number (deps.property (Selected.one v) i))

  -- Both amounts are formatted by the wrapped token.
  abbrev pub native_price : TokenProps → Bool → String → String → String
  native_price wrapped token0_is_weth reserves0 reserves1 =
      let weth_reserves =
        to_formatted (if token0_is_weth then reserves0 else reserves1) wrapped.decimals in
      let token_reserves =
        to_formatted (if token0_is_weth then reserves1 else reserves0) wrapped.decimals in
      divided_by weth_reserves token_reserves

  -- The price from what the pair's contract returned.
  unfoldable pub pair_price : {S : Type 0} → TokenProps → List (Option Selected) → Task S String
  unfolding is_same_address
  pair_price wrapped values = do
    reserves0 ← reserve (element 0 values) 0
    reserves1 ← reserve (element 0 values) 1
    token0_is_weth ←
        or_fail invalid_address
          (is_same_address get_address (text_of (element 1 values)) (some wrapped.address))
    pure (native_price wrapped token0_is_weth reserves0 reserves1)

  abbrev pub fetched_pair :
      TokenProps → String → List TokenProps → Task (Service D) (TokenProps × String)
  unfolding select pair_price
  fetched_pair wrapped factory [] = throw undefined_property
  fetched_pair wrapped factory (token ∷ tokens) = do
    pair_address ← ask (deps.get_pair factory token.address wrapped.address)
    ask (deps.get_multicall_provider b)
    results ← ask (deps.multicall b (pair_calls pair_address))
    values ← or_fail undefined_results (select results pair_address ("getReserves" ∷ "token0" ∷ []))
    price ← pair_price wrapped values
    pure (token, price)

  abbrev pub by_factory : String → List String → Task (Service D) (TokenProps × String)
  unfolding get_wrapped_token fetch_tokens_data
  by_factory token_addr [] = throw factory_not_found
  by_factory token_addr (factory ∷ factories) = do
    ask (deps.get_provider b)
    wrapped ← get_wrapped_token deps b
    tokens ← ask (fetch_tokens_data deps b (token_addr ∷ []))
    fetched_pair wrapped factory tokens

  unfoldable pub fetch_token_data_with_price : String → Task (Service D) (TokenProps × String)
  fetch_token_data_with_price token_addr = do
    factories ← ask (deps.find_uniswap_factory b)
    by_factory token_addr factories
