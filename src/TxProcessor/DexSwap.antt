-- ===== src/TxProcessor/DexSwap.antt =====
-- App/Services/TxProcessor/Strategies/DexSwapProcessor.ts: swaps on routers like that of Uniswap V2.
-- A test of addresses is `none` where `getAddress` throws.
pub mod Amounts
pub mod Swap
pub mod Untouched
pub mod Found
pub mod Decision
use Prim.Native.Char.{Char, code}
use Prim.Native.String.{◌++◌}
use block_listener.Base.{
  ℕ, String, Bool, true, false, not, List, [], ◌∷◌, Option, none, some, if◌then◌else◌, ◌===◌,
  string_eq, nat_eq, is_some, get_or,
}
use block_listener.Base.Task.{
  Thrown, Outcome, returns, throws, Task, pure, throw, ◌>>=◌, ◌>>◌, or_fail,
}
use block_listener.Values.{BlockchainId, TxType}
use block_listener.Rabbitmq.Objects.{Object, lookup}
use block_listener.Entities.Token.{TokenProps}
use block_listener.Entities.Tx.{
  TransactionLog, SmartContractCall, TxProps, TxSchemas, DexSwapData, dex_swap_data,
  set_type_and_data,
}
use block_listener.Utils.Address.{is_same_address, invalid_address}
use block_listener.TxProcessor.{Processing, Strategy, set_type}

abbrev pub transfer_signature : String
transfer_signature = "Transfer(address,address,uint256)"

abbrev pub swap_signature : String
swap_signature = "Swap(address,uint256,uint256,uint256,uint256,address)"

-- `UniswapV2RouterSwapMethods`
pub data Method : Type 0 where
  swap_eth_for_exact_tokens swap_exact_eth_for_tokens swap_exact_tokens_for_eth : Method
  swap_exact_tokens_for_eth_supporting_fee_on_transfer_tokens : Method
  swap_exact_eth_for_tokens_supporting_fee_on_transfer_tokens : Method
  swap_exact_tokens_for_tokens : Method
  swap_exact_tokens_for_tokens_supporting_fee_on_transfer_tokens : Method
  swap_tokens_for_exact_tokens : Method

abbrev pub methods : List (String × Method)
methods =
    ("swapETHForExactTokens", Method.swap_eth_for_exact_tokens)
    ∷ ("swapExactETHForTokens", Method.swap_exact_eth_for_tokens)
    ∷ ("swapExactTokensForETH", Method.swap_exact_tokens_for_eth)
    ∷ (
      "swapExactTokensForETHSupportingFeeOnTransferTokens",
      Method.swap_exact_tokens_for_eth_supporting_fee_on_transfer_tokens,
    )
    ∷ (
      "swapExactETHForTokensSupportingFeeOnTransferTokens",
      Method.swap_exact_eth_for_tokens_supporting_fee_on_transfer_tokens,
    )
    ∷ ("swapExactTokensForTokens", Method.swap_exact_tokens_for_tokens)
    ∷ (
      "swapExactTokensForTokensSupportingFeeOnTransferTokens",
      Method.swap_exact_tokens_for_tokens_supporting_fee_on_transfer_tokens,
    )
    ∷ ("swapTokensForExactTokens", Method.swap_tokens_for_exact_tokens)
    ∷ []

-- The method that `shouldProcess` finds among them.
unfoldable pub method_of : Option SmartContractCall → Option Method
unfolding lookup
method_of none = none
method_of (some call) = lookup call.method methods

-- A text that is truthy.
abbrev pub truthy : Option String → Option String
truthy none = none
truthy (some t) = if t === "" then none else some t

abbrev pub or_text : Option String → Option String → Option String
or_text none b = b
or_text (some a) b = some a

-- `a && b` and `a || b` between tests that may throw.
abbrev pub both_hold : Option Bool → Option Bool → Option Bool
both_hold none b = none
both_hold (some false) b = some false
both_hold (some true) b = b

abbrev pub either_holds : Option Bool → Option Bool → Option Bool
either_holds none b = none
either_holds (some true) b = some true
either_holds (some false) b = b

-- `find` with a test that may throw.
unfoldable pub find_checked : {A : Type 0} → (A → Option Bool) → List A → Option (Option A)
find_checked p [] = some none
find_checked p (x ∷ xs) = elim (p x) [
  | none ↦ none
  | some b ↦ elim b [ true ↦ some (some x) | false ↦ find_checked p xs ]
]

module _ (get_address : String → Option String) where
  abbrev pub is_transfer_by : String → String → TransactionLog → Option Bool
  is_transfer_by token pair_address log =
      both_hold (is_same_address get_address (some log.address) (some token)) (
        both_hold (some (log.signature === transfer_signature)) (
          either_holds (is_same_address get_address (lookup "to" log.args) (some pair_address))
            (is_same_address get_address (lookup "from" log.args) (some pair_address))))

  -- The loop over the swaps among the logs.
  unfoldable pub token_value_from :
      String → List TransactionLog → List TransactionLog → Option (Option String)
  unfolding find_checked
  token_value_from token logs [] = some none
  token_value_from token logs (swap_log ∷ rest) =
      if not (swap_log.signature === swap_signature)
      then token_value_from token logs rest
      else elim (find_checked (is_transfer_by token swap_log.address) logs) [
        | none ↦ none
        | some found ↦ elim found [
          | some log ↦ some (lookup "value" log.args)
          | none ↦ token_value_from token logs rest
        ]
      ]

  unfoldable pub get_token_value_from_logs : String → List TransactionLog → Option (Option String)
  unfolding token_value_from
  get_token_value_from_logs token logs = token_value_from token logs logs

  -- The value of the first transfer of a token with an address in an argument.
  abbrev pub is_transfer_at : String → String → Option String → TransactionLog → Option Bool
  is_transfer_at argument token address log =
      both_hold (is_same_address get_address (some log.address) (some token)) (
        both_hold (is_same_address get_address (lookup argument log.args) address)
          (some (log.signature === transfer_signature)))

  abbrev pub value_of : Option TransactionLog → Option String
  value_of none = none
  value_of (some log) = lookup "value" log.args

  abbrev pub transfer_amount :
      String → List TransactionLog → String → Option String → Option (Option String)
  transfer_amount argument logs token address =
      elim (find_checked (is_transfer_at argument token address) logs) [
        | none ↦ none
        | some found ↦ some (value_of found)
      ]

  unfoldable pub get_output_token_transfer_amount :
      List TransactionLog → String → Option String → Option (Option String)
  unfolding find_checked
  get_output_token_transfer_amount logs output_addr dest_addr =
      transfer_amount "to" logs output_addr dest_addr

  unfoldable pub get_input_token_transfer_amount :
      List TransactionLog → String → Option String → Option (Option String)
  unfolding find_checked
  get_input_token_transfer_amount logs token_address from_addr =
      transfer_amount "from" logs token_address from_addr

  -- `to_formatted` is a token's.
  unfoldable pub get_stable_usd_value_from_logs :
      (TokenProps → String → String)
      → List TokenProps
      → List TransactionLog
      → Option (Option String)
  unfolding get_token_value_from_logs
  get_stable_usd_value_from_logs to_formatted [] logs = some none
  get_stable_usd_value_from_logs to_formatted (stable ∷ stables) logs =
      elim (get_token_value_from_logs stable.address logs) [
        | none ↦ none
        | some found ↦ elim (truthy found) [
          | some value ↦ some (some (to_formatted stable value))
          | none ↦ get_stable_usd_value_from_logs to_formatted stables logs
        ]
      ]

-- `text.split(",")`
abbrev pub cons_head : Char → List String → List String
cons_head c [] = String.◌∷◌ c "" ∷ []
cons_head c (s ∷ ss) = String.◌∷◌ c s ∷ ss

unfoldable pub split_by_comma : String → List String
split_by_comma String.[] = "" ∷ []
split_by_comma (String.◌∷◌ c s) =
    let rest = split_by_comma s in if code c === code "," then "" ∷ rest else cons_head c rest

-- `path[0]` and `path[path.length - 1]` of a list that is not empty
abbrev pub first_of : List String → String
first_of [] = ""
first_of (x ∷ xs) = x

abbrev pub last_of : List String → String
last_of [] = ""
last_of (x ∷ []) = x
last_of (x ∷ y ∷ xs) = last_of (y ∷ xs)
