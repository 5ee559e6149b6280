-- ===== src/Tokens.antt =====
-- App/Services/TokenService.ts and App/Utils/Token.ts. A `Token` is its properties.
pub mod Multicall
pub mod Known
pub mod Selection
pub mod Asking
pub mod Fallback
pub mod PairPrice
pub mod Wrapped
pub mod Fetch
use Prim.Native.String.{◌++◌}
use block_listener.Base.{
  ℕ, suc, String, Bool, true, false, not, List, [], ◌∷◌, map, Option, none, some, if◌then◌else◌,
  ◌===◌,
}
use mathlib.Core.List.{◌++◌ as append}
use block_listener.Base.Task.{
  Thrown, Outcome, returns, throws, Task, pure, throw, ◌>>=◌, promise_all, or_fail, map_task,
}
use block_listener.Values.{BlockchainId, blockchain_text, blockchain_eq}
use block_listener.Entities.Token.{TokenProps}
use block_listener.Utils.Address.{checksumed, is_same_address, invalid_address}
use block_listener.Rabbitmq.Objects.{Object}
use block_listener.Tokens.Multicall.{CallReturn, Selected}

pub record ServiceCache : Type 0 where
  pub stable : List TokenProps
  pub wrapped : Option TokenProps

abbrev pub create_empty_cache : ServiceCache
create_empty_cache = record { stable = []; wrapped = none }

-- The service's own cache, and the world that it asks.
pub record Service (D : Type 0) : Type 0 where
  pub static_cache : BlockchainId → ServiceCache
  pub db : D

abbrev pub new_service : {D : Type 0} → D → Service D
new_service d = record { static_cache = λ b. create_empty_cache; db = d }

-- What `Token.create` is given: the name and the symbol are what the contract returned.
pub record TokenData : Type 0 where
  pub address : String
  pub blockchain : BlockchainId
  pub decimals : ℕ
  pub name : Selected
  pub symbol : Selected

pub record ContractCall : Type 0 where
  pub reference : String
  pub contract_address : String
  pub methods : List String

pub record Deps (D : Type 0) : Type 0 where
  pub get_address : String → Option String
  -- `findAll` with `{ isNativeWrapped: true, blockchain }` and with `{ isStable: true, blockchain }`
  pub find_native_wrapped : BlockchainId → Task D (List TokenProps)
  pub find_stable : BlockchainId → Task D (List TokenProps)
  pub find_tokens_by_blockchain_address : List String → BlockchainId → Task D (List TokenProps)
  pub find_uniswap_factory : BlockchainId → Task D (List String)
  pub cache_get : String → Task D (Option TokenProps)
  pub cache_set : String → TokenProps → Task D (Unit {0})
  -- The schema of `Token.create`, `none` where it throws, on cached properties and on fetched data
  pub create_token : TokenProps → Option TokenProps
  pub create_fetched : TokenData → Option TokenProps
  -- `getMulticallProvider` with `call`, and `getPair` of the factory's contract with `getProvider`
  pub get_multicall_provider : BlockchainId → Task D (Unit {0})
  pub multicall : BlockchainId → List ContractCall → Task D (Object (List CallReturn))
  pub get_provider : BlockchainId → Task D (Unit {0})
  pub get_pair : String → String → String → Task D String
  -- `parseBytes32String`, `none` where it throws
  pub parse_bytes32_string : Option Selected → Option String
  -- `value[i]` of what is not a list, and BigNumber on the decimal texts that the program prints
  pub property : Selected → ℕ → Option Selected
  pub big_number : Option Selected → Option String
  pub to_formatted : String → ℕ → String
  pub divided_by : String → String → String

abbrev pub error_of : String → String → Thrown
error_of name message = record {
  is_direct_to_dead = false;
  name = name;
  message = message;
  stack = "";
}

abbrev pub wrapped_not_found : BlockchainId → Thrown
wrapped_not_found b = error_of "Error" ("Wrapped token not found for " ++ blockchain_text b)

abbrev pub invalid_token : Thrown
invalid_token = error_of "ValidationError" "Invalid token"

unfoldable pub token_cache_key : BlockchainId → String → String
token_cache_key blockchain addr =
    "token_service_token_" ++ (blockchain_text blockchain ++ ("_" ++ addr))

abbrev pub defined : {A : Type 0} → List (Option A) → List A
defined [] = []
defined (none ∷ os) = defined os
defined (some a ∷ os) = a ∷ defined os

module _ (get_address : String → Option String) where
  -- `list.some((t) => isSameAddress(t.address, address))`, `none` where it throws.
  unfoldable pub some_with_address : String → List TokenProps → Option Bool
  unfolding is_same_address
  some_with_address address [] = some false
  some_with_address address (t ∷ ts) =
      let rest = some_with_address address ts in
      elim (is_same_address get_address (some t.address) (some address)) [
        | none ↦ none
        | some same ↦ if same then some true else rest
      ]

  -- `list.find` with the same test.
  unfoldable pub find_with_address : String → List TokenProps → Option (Option TokenProps)
  unfolding is_same_address
  find_with_address address [] = some none
  find_with_address address (t ∷ ts) =
      let rest = find_with_address address ts in
      elim (is_same_address get_address (some t.address) (some address)) [
        | none ↦ none
        | some same ↦ if same then some (some t) else rest
      ]

  abbrev pub unique_token_list : TokenProps → List TokenProps → Option Bool
  unique_token_list token list = elim (some_with_address token.address list) [
    | none ↦ none
    | some found ↦ some (not found)
  ]

  -- `list.filter(uniqueTokenList)`, the tokens of the first argument being those not yet tested.
  unfoldable pub filter_unique : List TokenProps → List TokenProps → Option (List TokenProps)
  unfolding some_with_address
  filter_unique [] list = some []
  filter_unique (t ∷ ts) list =
      let rest = filter_unique ts list in
      elim (unique_token_list t list) [
        | none ↦ none
        | some unique ↦ elim rest [
          | none ↦ none
          | some kept ↦ some (if unique then t ∷ kept else kept)
        ]
      ]

module _ {D : Type 0} where
  abbrev pub in_service : {A : Type 0} → Service D → Outcome D A → Outcome (Service D) A
  in_service s (returns a d) = returns a (record s { db = d })
  in_service s (throws e d) = throws e (record s { db = d })

  abbrev pub ask : {A : Type 0} → Task D A → Task (Service D) A
  ask task s = in_service s (task s.db)

  abbrev pub set_cache : BlockchainId → ServiceCache → Service D → Service D
  set_cache b cache s = record s { static_cache = λ c. if c === b then cache else s.static_cache c }

module _ {D : Type 0} (deps : Deps D) where
  open deps use {get_address}

  abbrev pub first_wrapped : BlockchainId → List TokenProps → Task (Service D) TokenProps
  first_wrapped b [] s = throws (wrapped_not_found b) s
  first_wrapped b (t ∷ ts) s =
      returns t (set_cache b (record (s.static_cache b) { wrapped = some t }) s)

  unfoldable pub get_wrapped_token : BlockchainId → Task (Service D) TokenProps
  get_wrapped_token b s = elim ((s.static_cache b).wrapped) [
    | some t ↦ returns t s
    | none ↦ (ask (deps.find_native_wrapped b) >>= first_wrapped b) s
  ]

  abbrev pub keep_stable : BlockchainId → List TokenProps → Task (Service D) (List TokenProps)
  keep_stable b ts s = returns ts (set_cache b (record (s.static_cache b) { stable = ts }) s)

  unfoldable pub get_stable_coins : BlockchainId → Task (Service D) (List TokenProps)
  get_stable_coins b s = elim ((s.static_cache b).stable) [
    | t ∷ ts ↦ returns (t ∷ ts) s
    | [] ↦ (ask (deps.find_stable b) >>= keep_stable b) s
  ]

  unfoldable pub get_tokens_from_db_and_cache :
      BlockchainId → List String → Task D (List TokenProps)
  unfolding promise_all map_task filter_unique token_cache_key
  get_tokens_from_db_and_cache b token_addrs = do
    cached ← promise_all (λ a. deps.cache_get (token_cache_key b a)) token_addrs
    tokens_from_cache ← map_task (λ p. or_fail invalid_token (deps.create_token p)) (defined cached)
    addresses ←
        map_task (λ a. or_fail invalid_address (checksumed get_address (some a))) token_addrs
    tokens_from_db ← deps.find_tokens_by_blockchain_address addresses b
    or_fail invalid_address
        (let list = append tokens_from_db tokens_from_cache in filter_unique get_address list list)
