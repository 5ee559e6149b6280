-- ===== src/TxProcessor/DexSwap/Swap.antt =====
-- DexSwapProcessor.ts: the data of a swap, and the processor.
use block_listener.Base.{
  String, true, false, not, List, Option, none, some, is_some, get_or, if◌then◌else◌, ◌||◌,
}
use block_listener.Base.Task.{returns, Task, pure, ◌>>=◌, ◌>>◌, or_fail}
use block_listener.Values.{TxType}
use block_listener.Rabbitmq.Objects.{Object, lookup}
use block_listener.Entities.Token.{TokenProps}
use block_listener.Entities.Tx.{TxProps, DexSwapData, dex_swap_data, set_type_and_data}
use block_listener.TxProcessor.{Processing, Strategy, set_type}
use block_listener.TxProcessor.DexSwap.{
  Method, method_of, truthy, get_token_value_from_logs, get_stable_usd_value_from_logs,
  split_by_comma, first_of, last_of,
}
use block_listener.TxProcessor.DexSwap.Amounts.{Deps, no_path, ask, checked, amounts, both_values}

module _ {D : Type 0} (deps : Deps D) where
  open deps use {get_address, to_formatted}

  -- The data, where both values are texts that are not empty.
  abbrev pub details :
      DexSwapData
      → TokenProps × TokenProps
      → TokenProps
      → Option String
      → Option String
      → Option DexSwapData
  details found tokens weth none usd = none
  details found tokens weth (some native) none = none
  details found tokens weth (some native) (some usd) = some (record found {
    native_value = to_formatted native weth.decimals;
    usd_value = usd;
    input = record (found.input) {
      symbol = (tokens.0).symbol;
      amount = to_formatted found.input.amount (tokens.0).decimals;
    };
    output = record (found.output) {
      symbol = (tokens.1).symbol;
      amount = to_formatted found.output.amount (tokens.1).decimals;
    };
  })

  -- What is known of a swap before its tokens are fetched.
  abbrev pub found_data :
      TxProps
      → String
      → String
      → String
      → Option String
      → Option String
      → String
      → String
      → DexSwapData
  found_data tx out_dest input_token out_token native usd input_amount out_amount = record {
    native_value = "";
    usd_value = "";
    from = tx.raw.from;
    to = out_dest;
    calculated_native_value = some (not (is_some native));
    calculated_usd_value = some (not (is_some usd));
    input = record { token = input_token; symbol = ""; amount = input_amount };
    output = record { token = out_token; symbol = ""; amount = out_amount };
  }

  unfoldable pub with_values :
      TxProps
      → TokenProps
      → DexSwapData
      → Option String
      → Option String
      → Task (Processing D) (Option DexSwapData)
  unfolding both_values
  with_values tx weth found native usd = do
    values ← both_values deps tx weth native usd
    tokens ← ask deps (deps.fetch_tokens_data tx.blockchain found.input.token found.output.token)
    elim values [
      | none ↦ pure none
      | some v ↦ pure (details found tokens weth (truthy (some v.0)) (truthy (some v.1)))
    ]

  abbrev pub with_amounts :
      TxProps
      → TokenProps
      → (String → String → DexSwapData)
      → Option String
      → Option String
      → Option String
      → Option String
      → Task (Processing D) (Option DexSwapData)
  with_amounts tx weth found none out native usd = pure none
  with_amounts tx weth found (some input) none native usd = pure none
  with_amounts tx weth found (some input) (some out) native usd =
      if is_some native || is_some usd
      then with_values tx weth (found input out) native usd
      else pure none

  -- The rest of `getDexSwapData` after `args.path.split(",")`. A destination that the call lacks is
  -- the empty text.
  unfoldable pub data_on_path :
      TxProps → Object String → Method → List String → Task (Processing D) (Option DexSwapData)
  unfolding amounts with_values get_token_value_from_logs get_stable_usd_value_from_logs lookup
  data_on_path tx args method path = do
    weth ← ask deps (deps.get_wrapped_token tx.blockchain)
    stables ← ask deps (deps.get_stable_coins tx.blockchain)
    native ← checked deps (get_token_value_from_logs get_address weth.address tx.raw.logs)
    usd ← checked deps (
        get_stable_usd_value_from_logs get_address (λ t value. to_formatted value t.decimals)
          stables tx.raw.logs)
    found ← amounts deps method tx args (first_of path) (last_of path) (lookup "to" args)
    with_amounts tx weth
        (found_data tx (get_or (lookup "to" args) "") (first_of path) (last_of path) (truthy native)
          (truthy usd))
        (truthy found.0) (truthy found.1) (truthy native) (truthy usd)

  unfoldable pub get_dex_swap_data :
      TxProps → Object String → Method → Task (Processing D) (Option DexSwapData)
  unfolding data_on_path split_by_comma lookup
  get_dex_swap_data tx args method = do
    path_text ← or_fail no_path (lookup "path" args)
    data_on_path tx args method (split_by_comma path_text)

  unfoldable pub process_dex_swap : Strategy D
  unfolding get_dex_swap_data method_of set_type_and_data
  process_dex_swap s = elim s.tx.raw.smart_contract_call [
    | none ↦ returns false s
    | some call ↦ elim (method_of (some call)) [
      | none ↦ returns false s
      | some method ↦
          (do
            data_of_swap ← get_dex_swap_data s.tx call.args method
            elim data_of_swap [
              | none ↦ pure false
              | some d ↦ do set_type deps.schemas TxType.dex_swap (dex_swap_data d); pure true
            ])
            s
    ]
  ]
