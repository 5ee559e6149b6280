-- ===== src/Tests/Swaps.antt =====
-- Runs of the processor of swaps.
use block_listener.Base.{
  ℕ, String, ◌≡◌, refl, true, false, List, [], ◌∷◌, Option, none, some, string_eq,
}
use block_listener.Base.Task.{returns, Task}
use block_listener.Values.{BlockchainId, TxType}
use block_listener.Rabbitmq.Objects.{Object, lookup}
use block_listener.Entities.Token.{TokenProps}
use block_listener.Entities.Tx.{
  TransactionLog, TxProps, TxSchemas, DexSwapData, no_data, dex_swap_data,
}
use block_listener.Utils.Address.{checksumed, is_same_address, to_lower_case}
use block_listener.TxProcessor.{Processing, process, process_native_transfer}
use block_listener.TxProcessor.Typed.{IsTyped, process-IsTyped}
use block_listener.TxProcessor.DexSwap.Untouched.{timeless}
use block_listener.TxProcessor.DexSwap.{
  Method, method_of, swap_signature, transfer_signature, find_checked, token_value_from,
  get_token_value_from_logs, get_stable_usd_value_from_logs, get_output_token_transfer_amount,
  split_by_comma,
}
use block_listener.TxProcessor.DexSwap.Amounts.{Deps, amounts, both_values}
use block_listener.TxProcessor.DexSwap.Swap.{
  with_values, data_on_path, get_dex_swap_data, process_dex_swap,
}
use block_listener.TxProcessor.DexSwap.Found.{IsSwapValue, get_token_value_from_logs_lem}

abbrev log : String → String → String → String → String → TransactionLog
log signature address from to value = record {
  tx_hash = "0x1";
  name = "";
  signature = signature;
  topic = "";
  address = address;
  args = ("from", from) ∷ ("to", to) ∷ ("value", value) ∷ [];
}

-- A swap of the pair, a transfer of the wrapped token to it, and one of the other token from it.
abbrev logs : List TransactionLog
logs =
    log transfer_signature "0xweth" "0xrouter" "0xpair" "9"
    ∷ log swap_signature "0xpair" "" "" ""
    ∷ log transfer_signature "0xtoken" "0xpair" "0xdest" "4"
    ∷ []

abbrev token : String → TokenProps
token address = record {
  address = address;
  blockchain = BlockchainId.ethereum;
  symbol = "T";
  name = "Token";
  decimals = 18;
  use_as_base_for_pair_discovery = false;
  is_stable = false;
  is_native_wrapped = false;
  logo_urls = none;
}

abbrev keep_address : String → Option String
keep_address a = some a

abbrev schemas : TxSchemas
schemas = record { dex_swap_value = λ d. d; eth_transfer_value = λ d. d; tx_value = λ t. some t }

abbrev usd_value : BlockchainId → String → ℕ → Task ℕ (String × ℕ)
usd_value b v date d = returns ("27", date) d

abbrev deps : Deps ℕ
deps = record {
  schemas = schemas;
  get_address = keep_address;
  get_wrapped_token = λ b d. returns (token "0xweth") d;
  get_stable_coins = λ b d. returns [] d;
  usd_value = usd_value;
  usd_price = λ b date d. returns ("3", date) d;
  fetch_tokens_data = λ b i o d. returns (token i, token o) d;
  to_formatted = λ v decimals. v;
  divided_by = λ a b. a;
}

abbrev args : Object String
args = ("amountOutMin", "3") ∷ ("path", "0xweth,0xmid,0xtoken") ∷ ("to", "0xdest") ∷ []

abbrev tx : String → TxProps
tx method = record {
  blockchain = BlockchainId.ethereum;
  hash = "0x1";
  type = TxType.unknown;
  raw = record {
    hash = "0x1";
    block_height = 7;
    timestamp = 5;
    input = "0xff";
    to = "0xrouter";
    from = "0xsender";
    value = "9";
    logs = logs;
    smart_contract_call = some (record { method = method; signature = ""; args = args });
  };
  content = no_data;
}

abbrev swap : DexSwapData
swap = record {
  native_value = "9";
  usd_value = "27";
  from = "0xsender";
  to = "0xdest";
  calculated_native_value = some false;
  calculated_usd_value = some true;
  input = record { token = "0xweth"; symbol = "T"; amount = "9" };
  output = record { token = "0xtoken"; symbol = "T"; amount = "4" };
}

abbrev state : Processing ℕ
state = record { db = 0; tx = tx "swapExactETHForTokens" }

run :
    get_dex_swap_data deps (tx "swapExactETHForTokens") args Method.swap_exact_eth_for_tokens state
    ≡ returns (some swap) state
unfolding get_dex_swap_data data_on_path amounts with_values both_values get_token_value_from_logs
    token_value_from get_stable_usd_value_from_logs get_output_token_transfer_amount find_checked
    is_same_address checksumed to_lower_case split_by_comma lookup
run = refl

value_found : get_token_value_from_logs keep_address "0xweth" logs ≡ some (some "9")
unfolding get_token_value_from_logs token_value_from find_checked is_same_address checksumed
    to_lower_case lookup
value_found = refl

get_token_value_from_logs_lem_example : IsSwapValue keep_address "0xweth" logs logs "9"
get_token_value_from_logs_lem_example =
    get_token_value_from_logs_lem keep_address "0xweth" logs "9" value_found

abbrev processed : Processing ℕ
processed = record state {
  tx = record (state.tx) { type = TxType.dex_swap; content = dex_swap_data swap };
}

swap_processed :
    process (process_native_transfer schemas (λ v. v) usd_value ∷ process_dex_swap deps ∷ []) state
    ≡ returns tt processed
unfolding process process_native_transfer process_dex_swap method_of get_dex_swap_data data_on_path
    amounts with_values both_values get_token_value_from_logs token_value_from
    get_stable_usd_value_from_logs get_output_token_transfer_amount find_checked is_same_address
    checksumed to_lower_case split_by_comma lookup
swap_processed = refl

process-IsTyped_example : IsTyped (timeless state) (timeless processed)
process-IsTyped_example =
    process-IsTyped deps (λ d. (d, refl)) (λ d. (d, refl)) (λ v. v) usd_value state processed
      swap_processed
