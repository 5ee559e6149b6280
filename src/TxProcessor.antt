-- ===== src/TxProcessor.antt =====
-- App/Services/TxProcessor: the processors are tried in turn on one transaction object, which they
-- write to.
pub mod Order
pub mod DexSwap
pub mod TokenTransfer
pub mod Typed
use block_listener.Base.{
  ℕ, String, Bool, true, false, not, List, [], ◌∷◌, Option, none, some, if◌then◌else◌, any, ◌===◌,
  string_eq,
}
use block_listener.Base.Task.{Thrown, Outcome, returns, throws, Task, pure, ◌>>=◌, ◌>>◌}
use block_listener.Values.{BlockchainId, TxType}
use block_listener.Entities.Tx.{
  TxProps, TxData, TxSchemas, SmartContractCall, empty_data, eth_transfer_data,
  is_smart_contract_call, set_type_and_data,
}

-- The services' state and the transaction object.
pub record Processing (D : Type 0) : Type 0 where
  pub db : D
  pub tx : TxProps

-- A strategy answers whether it returns the transaction or nothing.
abbrev pub Strategy : Type 0 → Type 0
Strategy D = Task (Processing D) Bool

-- A write to the transaction object.
abbrev pub in_tx : {D : Type 0} → D → Outcome TxProps (Unit {0}) → Outcome (Processing D) (Unit {0})
in_tx d (returns a t) = returns tt (record { db = d; tx = t })
in_tx d (throws e t) = throws e (record { db = d; tx = t })

abbrev pub set_type : {D : Type 0} → TxSchemas → TxType → TxData → Task (Processing D) (Unit {0})
set_type schemas type d s = in_tx s.db (set_type_and_data schemas type d s.tx)

-- `TxProcessor.process`
unfoldable pub process : {D : Type 0} → List (Strategy D) → Task (Processing D) (Unit {0})
process [] = pure tt
process (strategy ∷ strategies) = λ s. elim (strategy s) [
  | throws e t ↦ throws e t
  | returns b t ↦ elim b [ true ↦ returns tt t | false ↦ process strategies t ]
]

abbrev pub has_method : List String → Option SmartContractCall → Bool
has_method methods none = false
has_method methods (some call) = any (λ m. m === call.method) methods

abbrev pub uniswap_v3_methods : List String
uniswap_v3_methods = "exactInput" ∷ "exactInputSingle" ∷ "exactOutput" ∷ "exactOutputSingle" ∷ []

module _ {D : Type 0} (schemas : TxSchemas) where
  -- NativeTransferProcessor.ts. `usd_value` is `getBlockchainNativeTokenUsdValue(…).toString()` with
  -- what it leaves in the date, which is the one of the transaction.
  unfoldable pub process_native_transfer :
      (String → String) → (BlockchainId → String → ℕ → Task D (String × ℕ)) → Strategy D
  unfolding set_type_and_data
  process_native_transfer to_formatted usd_value s =
      let tx = s.tx in
      let value = to_formatted tx.raw.value in
      if is_smart_contract_call tx
      then returns false s
      else elim (usd_value tx.blockchain value tx.raw.timestamp s.db) [
        | throws e d ↦ throws e (record s { db = d })
        | returns (usd, date) d ↦
            (do
              set_type schemas TxType.eth_transfer (
                  eth_transfer_data
                    (record { from = tx.raw.from; to = tx.raw.to; usd_value = usd; value = value }))
              pure true)
              (record { db = d; tx = record tx { raw = record (tx.raw) { timestamp = date } } })
      ]

  -- UniswapV3SwapProcessor.ts
  unfoldable pub process_uniswap_v3_swap : Strategy D
  unfolding set_type_and_data
  process_uniswap_v3_swap s =
      if not (has_method uniswap_v3_methods s.tx.raw.smart_contract_call)
      then returns false s
      else (set_type schemas TxType.dex_swap_uniswap_v3 empty_data >> pure true) s
