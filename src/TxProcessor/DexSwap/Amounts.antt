-- ===== src/TxProcessor/DexSwap/Amounts.antt =====
-- DexSwapProcessor.ts: the services that the processor asks, and the amounts and values of a swap.
use block_listener.Base.{ℕ, String, false, List, Option, none, some}
use block_listener.Base.Task.{Thrown, returns, throws, Task, pure, ◌>>=◌, or_fail}
use block_listener.Values.{BlockchainId}
use block_listener.Rabbitmq.Objects.{Object, lookup}
use block_listener.Entities.Token.{TokenProps}
use block_listener.Entities.Tx.{TxProps, TxSchemas}
use block_listener.Utils.Address.{invalid_address}
use block_listener.TxProcessor.{Processing}
use block_listener.TxProcessor.DexSwap.{
  Method, truthy, or_text, get_output_token_transfer_amount, get_input_token_transfer_amount,
}

-- The token service and the price service. A price service leaves the last result in the date that
-- it is given, which is the transaction's. `to_formatted` and `divided_by` are those of BigNumber.
pub record Deps (D : Type 0) : Type 0 where
  pub schemas : TxSchemas
  pub get_address : String → Option String
  pub get_wrapped_token : BlockchainId → Task D TokenProps
  pub get_stable_coins : BlockchainId → Task D (List TokenProps)
  pub usd_value : BlockchainId → String → ℕ → Task D (String × ℕ)
  pub usd_price : BlockchainId → ℕ → Task D (String × ℕ)
  pub fetch_tokens_data : BlockchainId → String → String → Task D (TokenProps × TokenProps)
  pub to_formatted : String → ℕ → String
  pub divided_by : String → String → String

abbrev pub no_path : Thrown
no_path = record {
  is_direct_to_dead = false;
  name = "TypeError";
  message = "Cannot read properties of undefined (reading 'split')";
  stack = "";
}

module _ {D : Type 0} (deps : Deps D) where
  open deps use {get_address, to_formatted}

  -- A call of a service, and one that also sets the date of the transaction.
  abbrev pub ask : {A : Type 0} → Task D A → Task (Processing D) A
  ask task s = elim (task s.db) [
    | returns a d ↦ returns a (record s { db = d })
    | throws e d ↦ throws e (record s { db = d })
  ]

  abbrev pub ask_price : (ℕ → Task D (String × ℕ)) → Task (Processing D) String
  ask_price task s = elim (task s.tx.raw.timestamp s.db) [
    | throws e d ↦ throws e (record s { db = d })
    | returns (price, date) d ↦
        returns price
          (record { db = d; tx = record (s.tx) { raw = record (s.tx.raw) { timestamp = date } } })
  ]

  abbrev pub checked : {A : Type 0} → Option A → Task (Processing D) A
  checked = or_fail invalid_address

  -- The amounts of the input and of the output, by the method.
  unfoldable pub amounts :
      Method
      → TxProps
      → Object String
      → String
      → String
      → Option String
      → Task (Processing D) (Option String × Option String)
  unfolding get_output_token_transfer_amount get_input_token_transfer_amount lookup
  amounts method tx args input_token out_token out_dest =
      let received : Task (Processing D) (Option String) =
        checked (get_output_token_transfer_amount get_address tx.raw.logs out_token out_dest) in
      let at_least : Task (Processing D) (Option String) = (do
        value ← received
        pure (or_text (truthy value) (lookup "amountOutMin" args))) in
      elim method [
        | Method.swap_eth_for_exact_tokens ↦ do
          value ← received
          pure (some tx.raw.value, or_text (truthy value) (lookup "amountOut" args))
        | Method.swap_exact_eth_for_tokens ↦ do out ← at_least; pure (some tx.raw.value, out)
        | Method.swap_exact_eth_for_tokens_supporting_fee_on_transfer_tokens ↦ do
          out ← at_least
          pure (some tx.raw.value, out)
        | Method.swap_exact_tokens_for_eth ↦ do out ← at_least; pure (lookup "amountIn" args, out)
        | Method.swap_exact_tokens_for_eth_supporting_fee_on_transfer_tokens ↦ do
          out ← at_least
          pure (lookup "amountIn" args, out)
        | Method.swap_exact_tokens_for_tokens ↦ do
          out ← at_least
          pure (lookup "amountIn" args, out)
        | Method.swap_exact_tokens_for_tokens_supporting_fee_on_transfer_tokens ↦ do
          out ← at_least
          pure (lookup "amountIn" args, out)
        | Method.swap_tokens_for_exact_tokens ↦ do
          sent ← checked (
              get_input_token_transfer_amount get_address tx.raw.logs input_token
                (some tx.raw.from))
          pure (or_text (truthy sent) (lookup "amountInMax" args), lookup "amountOut" args)
      ]

  -- The native and the dollar value, where one of them was found.
  unfoldable pub both_values :
      TxProps
      → TokenProps
      → Option String
      → Option String
      → Task (Processing D) (Option (String × String))
  both_values tx weth none none = pure none
  both_values tx weth (some native) (some usd) = pure (some (native, usd))
  both_values tx weth (some native) none = do
    usd ← ask_price (deps.usd_value tx.blockchain (to_formatted native weth.decimals))
    pure (some (native, usd))
  both_values tx weth none (some usd) = do
    price ← ask_price (deps.usd_price tx.blockchain)
    pure (some (deps.divided_by usd price, usd))
