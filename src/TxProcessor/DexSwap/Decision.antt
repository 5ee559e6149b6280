-- ===== src/TxProcessor/DexSwap/Decision.antt =====
-- DexSwapProcessor.ts in the chain of processors: which calls it leaves, and what its data says.
use block_listener.Base.{ℕ, String, ◌≡◌, List, [], ◌∷◌, Option, none, some, get_or, arith}
use block_listener.Base.Task.{returns, Task, Ensures, bind-Ensures}
use block_listener.Values.{BlockchainId}
use block_listener.Rabbitmq.Objects.{Object, lookup}
use block_listener.Entities.Token.{TokenProps}
use block_listener.Entities.Tx.{SmartContractCall, TxProps, TxSchemas, DexSwapData}
use block_listener.TxProcessor.{Processing, process, process_native_transfer}
use block_listener.TxProcessor.DexSwap.{
  Method, method_of, truthy, get_token_value_from_logs, get_stable_usd_value_from_logs, first_of,
  last_of, split_by_comma,
}
use block_listener.TxProcessor.DexSwap.Amounts.{Deps, amounts, ask, checked}
use block_listener.TxProcessor.DexSwap.Swap.{
  process_dex_swap, with_values, found_data, with_amounts, get_dex_swap_data, data_on_path,
}

module _ {D : Type 0} (deps : Deps D) where
  -- A transaction with a call of a method that is not one of the router's stays as it is, when the
  -- processors of native transfers and of swaps are tried on it.
  pub process_other_call :
      (schemas : TxSchemas) (to_formatted : String → String)
      (usd_value : BlockchainId → String → ℕ → Task D (String × ℕ)) (s : Processing D)
      (call : SmartContractCall)
      → s.tx.raw.smart_contract_call ≡ some call
      → method_of (some call) ≡ none
      → process
          (process_native_transfer schemas to_formatted usd_value ∷ process_dex_swap deps ∷ [])
          s
        ≡ returns tt s
  unfolding process process_dex_swap process_native_transfer
  process_other_call schemas to_formatted usd_value s call has other = ground arith

  -- The sender, the destination and the tokens of the data.
  abbrev pub Names : TxProps → String → String → String → Option DexSwapData → Type 0
  Names tx to_addr input_token out_token none = Unit
  Names tx to_addr input_token out_token (some d) =
      (d.from ≡ tx.raw.from)
      × (d.to ≡ to_addr)
      × (d.input.token ≡ input_token)
      × (d.output.token ≡ out_token)

  with_amounts-Names :
      (tx : TxProps) (weth : TokenProps) (to_addr input_token out_token : String)
      (input out native usd : Option String)
      → Ensures (Names tx to_addr input_token out_token) (
          with_amounts deps tx weth
            (found_data deps tx to_addr input_token out_token native usd)
            input
            out
            native
            usd)
  unfolding with_values
  with_amounts-Names tx weth to_addr it ot input out native usd s t none h = tt
  with_amounts-Names tx weth to_addr it ot none out native usd s t (some d) h = ground arith
  with_amounts-Names tx weth to_addr it ot (some i) none native usd s t (some d) h = ground arith
  with_amounts-Names tx weth to_addr it ot (some i) (some o) native usd s t (some d) h =
      ground arith

  data_on_path-Names :
      (tx : TxProps) (args : Object String) (method : Method) (path : List String)
      → Ensures
          (Names tx (get_or (lookup "to" args) "") (first_of path) (last_of path))
          (data_on_path deps tx args method path)
  unfolding data_on_path
  data_on_path-Names tx args method path =
      let Q = Names tx (get_or (lookup "to" args) "") (first_of path) (last_of path) in
      let logs = tx.raw.logs in
      bind-Ensures Q (ask deps (deps.get_wrapped_token tx.blockchain)) _ (λ weth.
        bind-Ensures Q (ask deps (deps.get_stable_coins tx.blockchain)) _ (λ stables.
          bind-Ensures Q
            (checked deps (get_token_value_from_logs deps.get_address weth.address logs)) _
            (λ native.
              bind-Ensures Q
                (checked deps (
                  get_stable_usd_value_from_logs deps.get_address
                    (λ t value. deps.to_formatted value t.decimals) stables logs))
                _
                (λ usd.
                  bind-Ensures Q
                    (amounts deps method tx args (first_of path) (last_of path) (lookup "to" args))
                    _
                    (λ found.
                      with_amounts-Names tx weth (get_or (lookup "to" args) "") (first_of path)
                        (last_of path) (truthy found.0) (truthy found.1) (truthy native)
                        (truthy usd))))))

  -- The data of a swap names the sender of the transaction, the destination of the call, and the first
  -- and the last token of the call's path.
  pub get_dex_swap_data_lem :
      (tx : TxProps) (args : Object String) (method : Method) (path : String) (s t : Processing D)
      (d : DexSwapData)
      → lookup "path" args ≡ some path
      → get_dex_swap_data deps tx args method s ≡ returns (some d) t
      → (d.from ≡ tx.raw.from)
        × (d.to ≡ get_or (lookup "to" args) "")
        × (d.input.token ≡ first_of (split_by_comma path))
        × (d.output.token ≡ last_of (split_by_comma path))
  unfolding get_dex_swap_data
  get_dex_swap_data_lem tx args method path s t d has h =
      data_on_path-Names tx args method (split_by_comma path) s t (some d) (ground (arith, has, h))
