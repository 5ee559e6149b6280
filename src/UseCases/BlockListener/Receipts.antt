-- ===== src/UseCases/BlockListener/Receipts.antt =====
-- BlockListener.ts: `mapRawReceiptToTxReceipt`, for the fields of a receipt that the program reads.
use block_listener.Base.{
  ℕ, String, Bool, false, ◌&&◌, List, [], ◌∷◌, Option, none, some, if◌then◌else◌,
}
use mathlib.Core.Option
use block_listener.Base.Task.{Thrown}
use block_listener.Messages.{EthersLog, TxReceipt}

-- A receipt as the node sends it, its numbers as texts.
pub record RawReceipt : Type 0 where
  pub transaction_hash : String
  pub status : String
  pub gas_used : String
  pub cumulative_gas_used : String
  pub effective_gas_price : String
  pub logs : List EthersLog

abbrev pub invalid_big_number : Thrown
invalid_big_number = record {
  is_direct_to_dead = false;
  name = "Error";
  message = "invalid BigNumber string";
  stack = "";
}

-- Over `Number` and the texts that `BigNumber.from` takes; `none` where it throws.
unfoldable pub map_raw_receipt_to_tx_receipt :
    (String → ℕ) → (String → Bool) → ℕ → RawReceipt → Option TxReceipt
map_raw_receipt_to_tx_receipt number is_big_number block_number r =
    if is_big_number r.gas_used
      && (is_big_number r.cumulative_gas_used && is_big_number r.effective_gas_price)
    then some (record {
      transaction_hash = r.transaction_hash;
      block_number = block_number;
      status = some (number r.status);
      logs = r.logs;
    })
    else none

-- `receipts.map(mapRawReceiptToTxReceipt(block))`: the first error ends it.
unfoldable pub map_raw_receipts :
    (String → ℕ) → (String → Bool) → ℕ → List RawReceipt → Option (List TxReceipt)
unfolding map_raw_receipt_to_tx_receipt
map_raw_receipts number is_big_number block_number [] = some []
map_raw_receipts number is_big_number block_number (r ∷ rs) =
    elim (map_raw_receipt_to_tx_receipt number is_big_number block_number r) [
      | none ↦ none
      | some receipt ↦
          Option.map (λ rest. receipt ∷ rest)
            (map_raw_receipts number is_big_number block_number rs)
    ]
