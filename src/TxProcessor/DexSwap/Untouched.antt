-- ===== src/TxProcessor/DexSwap/Untouched.antt =====
-- DexSwapProcessor.ts: what the search for the data of a swap leaves of the transaction.
use block_listener.Base.{
  ℕ, String, List, Option, none, some, is_some, ◌||◌, inl, inr, get_or, Bool-cases, arith,
}
use block_listener.Base.Task.{Task, pure, ◌>>=◌, Outcome-cases, or_fail}
use block_listener.Base.Keeps.{Keeps, pure-Keeps, or_fail-Keeps, bind-Keeps}
use block_listener.Rabbitmq.Objects.{Object, lookup}
use block_listener.Entities.Token.{TokenProps}
use block_listener.Entities.Tx.{TxProps, DexSwapData}
use block_listener.Utils.Address.{invalid_address}
use block_listener.TxProcessor.{Processing}
use block_listener.TxProcessor.DexSwap.{
  Method, truthy, or_text, get_token_value_from_logs, get_stable_usd_value_from_logs, first_of,
  last_of, split_by_comma, get_output_token_transfer_amount, get_input_token_transfer_amount,
}
use block_listener.TxProcessor.DexSwap.Amounts.{
  Deps, no_path, ask, ask_price, checked, amounts, both_values,
}
use block_listener.TxProcessor.DexSwap.Swap.{
  with_values, found_data, details, with_amounts, get_dex_swap_data, data_on_path,
}

-- The transaction, whatever its time.
abbrev pub timeless : {D : Type 0} → Processing D → TxProps
timeless s = record (s.tx) { raw = record (s.tx.raw) { timestamp = 0 } }

module _ {D : Type 0} (deps : Deps D) where
  ask-Keeps : {A : Type 0} (task : Task D A) → Keeps timeless (ask deps task)
  ask-Keeps task s t a e = elim (Outcome-cases (task s.db)) [
    | inl (b, d, done) ↦ ground (arith, done)
    | inr (error, d, failed) ↦ ground (arith, failed)
  ]

  ask_price-Keeps : (task : ℕ → Task D (String × ℕ)) → Keeps timeless (ask_price deps task)
  ask_price-Keeps task s t a e = elim (Outcome-cases (task s.tx.raw.timestamp s.db)) [
    | inl (b, d, done) ↦ ground (arith, done)
    | inr (error, d, failed) ↦ ground (arith, failed)
  ]

  checked_then-Keeps :
      {A B : Type 0} (o : Option A) (g : A → B)
      → Keeps timeless (checked deps o >>= λ a. pure (g a))
  checked_then-Keeps o g =
      bind-Keeps timeless (checked deps o) _ (or_fail-Keeps timeless invalid_address o)
        (λ a. pure-Keeps timeless (g a))

  both_values-Keeps :
      (tx : TxProps) (weth : TokenProps) (native usd : Option String)
      → Keeps timeless (both_values deps tx weth native usd)
  unfolding both_values
  both_values-Keeps tx weth none none = pure-Keeps timeless none
  both_values-Keeps tx weth (some native) (some usd) = pure-Keeps timeless (some (native, usd))
  both_values-Keeps tx weth (some native) none =
      bind-Keeps timeless
        (ask_price deps (deps.usd_value tx.blockchain (deps.to_formatted native weth.decimals))) _
        (ask_price-Keeps (deps.usd_value tx.blockchain (deps.to_formatted native weth.decimals)))
        (λ usd. pure-Keeps timeless (some (native, usd)))
  both_values-Keeps tx weth none (some usd) =
      bind-Keeps timeless (ask_price deps (deps.usd_price tx.blockchain)) _
        (ask_price-Keeps (deps.usd_price tx.blockchain))
        (λ price. pure-Keeps timeless (some (deps.divided_by usd price, usd)))

  amounts-Keeps :
      (method : Method) (tx : TxProps) (args : Object String) (input_token out_token : String)
      (out_dest : Option String)
      → Keeps timeless (amounts deps method tx args input_token out_token out_dest)
  unfolding amounts
  amounts-Keeps method tx args input_token out_token out_dest =
      let out = get_output_token_transfer_amount deps.get_address tx.raw.logs out_token out_dest in
      let at_least = λ (g : Option String → Option String × Option String).
        bind-Keeps timeless
          (checked deps out >>= λ v. pure (or_text (truthy v) (lookup "amountOutMin" args)))
          (λ o. pure (g o))
          (checked_then-Keeps out (λ v. or_text (truthy v) (lookup "amountOutMin" args)))
          (λ o. pure-Keeps timeless (g o)) in
      elim method as (λ m. Keeps timeless (amounts deps m tx args input_token out_token out_dest)) [
        | Method.swap_eth_for_exact_tokens ↦
            checked_then-Keeps out
              (λ v. (some tx.raw.value, or_text (truthy v) (lookup "amountOut" args)))
        | Method.swap_exact_eth_for_tokens ↦ at_least (λ o. (some tx.raw.value, o))
        | Method.swap_exact_eth_for_tokens_supporting_fee_on_transfer_tokens ↦
            at_least (λ o. (some tx.raw.value, o))
        | Method.swap_exact_tokens_for_eth ↦ at_least (λ o. (lookup "amountIn" args, o))
        | Method.swap_exact_tokens_for_eth_supporting_fee_on_transfer_tokens ↦
            at_least (λ o. (lookup "amountIn" args, o))
        | Method.swap_exact_tokens_for_tokens ↦ at_least (λ o. (lookup "amountIn" args, o))
        | Method.swap_exact_tokens_for_tokens_supporting_fee_on_transfer_tokens ↦
            at_least (λ o. (lookup "amountIn" args, o))
        | Method.swap_tokens_for_exact_tokens ↦
            checked_then-Keeps
              (get_input_token_transfer_amount deps.get_address tx.raw.logs input_token
                (some tx.raw.from))
              (λ sent. (or_text (truthy sent) (lookup "amountInMax" args), lookup "amountOut" args))
      ]

  with_values-Keeps :
      (tx : TxProps) (weth : TokenProps) (found : DexSwapData) (native usd : Option String)
      → Keeps timeless (with_values deps tx weth found native usd)
  unfolding with_values
  with_values-Keeps tx weth found native usd =
      bind-Keeps timeless (both_values deps tx weth native usd) _
        (both_values-Keeps tx weth native usd)
        (λ values.
          let tokens = deps.fetch_tokens_data tx.blockchain found.input.token found.output.token in
          bind-Keeps timeless (ask deps tokens) _ (ask-Keeps tokens) (λ ts.
            elim values
              as (λ o. Keeps timeless (elim o as (λ _. Task (Processing D) (Option DexSwapData)) [
                | none ↦ pure none
                | some v ↦ pure (details deps found ts weth (truthy (some v.0)) (truthy (some v.1)))
              ])) [
                | none ↦ pure-Keeps timeless none
                | some v ↦
                    pure-Keeps timeless
                      (details deps found ts weth (truthy (some v.0)) (truthy (some v.1)))
              ]))

  with_amounts-Keeps :
      (tx : TxProps) (weth : TokenProps) (found : String → String → DexSwapData)
      (input out native usd : Option String)
      → Keeps timeless (with_amounts deps tx weth found input out native usd)
  with_amounts-Keeps tx weth found none out native usd s t a e = pure-Keeps timeless none s t a e
  with_amounts-Keeps tx weth found (some i) none native usd s t a e =
      pure-Keeps timeless none s t a e
  with_amounts-Keeps tx weth found (some i) (some o) native usd s t a e =
      elim (Bool-cases (is_some native || is_some usd)) [
        | inl known ↦
            with_values-Keeps tx weth (found i o) native usd s t a (ground (arith, e, known))
        | inr unknown ↦ ground (arith, e, unknown)
      ]

  data_on_path-Keeps :
      (tx : TxProps) (args : Object String) (method : Method) (path : List String)
      → Keeps timeless (data_on_path deps tx args method path)
  unfolding data_on_path
  data_on_path-Keeps tx args method path =
      let logs = tx.raw.logs in
      bind-Keeps timeless (ask deps (deps.get_wrapped_token tx.blockchain)) _
        (ask-Keeps (deps.get_wrapped_token tx.blockchain))
        (λ weth.
          bind-Keeps timeless (ask deps (deps.get_stable_coins tx.blockchain)) _
            (ask-Keeps (deps.get_stable_coins tx.blockchain))
            (λ stables.
              bind-Keeps timeless
                (checked deps (get_token_value_from_logs deps.get_address weth.address logs)) _
                (or_fail-Keeps timeless invalid_address
                  (get_token_value_from_logs deps.get_address weth.address logs))
                (λ native.
                  bind-Keeps timeless
                    (checked deps (
                      get_stable_usd_value_from_logs deps.get_address
                        (λ t value. deps.to_formatted value t.decimals) stables logs))
                    _
                    (or_fail-Keeps timeless invalid_address (
                      get_stable_usd_value_from_logs deps.get_address
                        (λ t value. deps.to_formatted value t.decimals) stables logs))
                    (λ usd.
                      bind-Keeps timeless
                        (amounts deps method tx args (first_of path) (last_of path)
                          (lookup "to" args))
                        _
                        (amounts-Keeps method tx args (first_of path) (last_of path)
                          (lookup "to" args))
                        (λ found.
                          with_amounts-Keeps tx weth
                            (found_data deps tx (get_or (lookup "to" args) "") (first_of path)
                              (last_of path) (truthy native) (truthy usd))
                            (truthy found.0) (truthy found.1) (truthy native) (truthy usd))))))

  -- Looking for the data of a swap changes nothing of the transaction but its time.
  pub get_dex_swap_data-Keeps :
      (tx : TxProps) (args : Object String) (method : Method)
      → Keeps timeless (get_dex_swap_data deps tx args method)
  unfolding get_dex_swap_data
  get_dex_swap_data-Keeps tx args method =
      bind-Keeps timeless (or_fail no_path (lookup "path" args)) _
        (or_fail-Keeps timeless no_path (lookup "path" args))
        (λ path. data_on_path-Keeps tx args method (split_by_comma path))
