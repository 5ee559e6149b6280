-- ===== src/UseCases/ProcessTx.antt =====
-- App/UseCases/ProcessTx.ts: the transaction of a message, from its receipt, its response and its
-- block, and what the processors make of it.
pub mod Outcomes
pub mod Raw
pub mod Published
use block_listener.Base.{
  ℕ, ◌*◌, String, Bool, true, false, List, [], ◌∷◌, map, Option, none, some, if◌then◌else◌, ◌===◌,
  string_eq, nat_eq, not,
}
use block_listener.Base.Task.{
  Thrown, Outcome, returns, throws, Task, pure, throw, ◌>>=◌, ◌>>◌, catch, or_fail,
}
use block_listener.Values.{BlockchainId, TxType}
use block_listener.Rabbitmq.Objects.{Object, assign}
use block_listener.Entities.Tx.{
  TransactionLog, SmartContractCall, RawTx, TxProps, TxSchemas, no_data, create,
}
use block_listener.Messages.{
  Message, TxResponse, EthersLog, TxReceipt, EthersBlock, TxDiscoveredPayload, tx_processed,
}
use block_listener.Utils.Address.{checksumed, invalid_address}
use block_listener.App.{App, Effect, on_db, publish}
use block_listener.TxProcessor.{Processing, Strategy, process}

-- What the decoders answer: the names of the inputs with the texts of their values.
pub record DecodedLog : Type 0 where
  pub name : String
  pub signature : String
  pub topic : String
  pub address : String
  pub inputs : List (String × String)

pub record DecodedTx : Type 0 where
  pub name : String
  pub signature : String
  pub inputs : List (String × String)

pub record Deps (D : Type 0) : Type 0 where
  -- `getProvider`, which throws where there is no node
  pub get_provider : BlockchainId → Task D (Unit {0})
  pub get_transaction_receipt : BlockchainId → String → Task D (Option TxReceipt)
  -- `err && err.reason && err.reason === "invalid hash"`
  pub is_invalid_hash : Thrown → Bool
  pub get_transaction : BlockchainId → String → Task D (Option TxResponse)
  pub get_block : BlockchainId → ℕ → Task D (Option EthersBlock)
  -- `decodeLogs` and `decodeTx` with the program's list of ABIs, `none` where they throw
  pub decode_logs : List EthersLog → Option (List DecodedLog)
  pub decode_tx : TxResponse → Option DecodedTx
  -- `BN(value).toString()`
  pub number_text : String → String
  pub get_address : String → Option String
  pub schemas : TxSchemas
  pub strategies : List (Strategy D)
  pub publish_error : Message → D → Option Thrown

abbrev pub error_named : String → String → Thrown
error_named name message = record {
  is_direct_to_dead = false;
  name = name;
  message = message;
  stack = "";
}

abbrev pub invalid_tx_hash : Thrown
invalid_tx_hash = record {
  is_direct_to_dead = true;
  name = "Error";
  message = "[Executor] Direct to Dead. Reason: Invalid tx hash given";
  stack = "";
}

abbrev pub receipt_not_available : Thrown
receipt_not_available = error_named "Error" "TX receipt not available yet"

abbrev pub no_object : Thrown
no_object = error_named "TypeError" "Cannot read properties of null"

abbrev pub cannot_decode : Thrown
cannot_decode = error_named "Error" "cannot decode logs"

-- The fold over the inputs: `t[argName] = …`.
unfoldable pub args_of : Object String → List (String × String) → Object String
unfolding assign
args_of t [] = t
args_of t ((arg_name, value) ∷ inputs) = args_of (assign arg_name value t) inputs

abbrev pub is_smart_contract_call : TxResponse → Bool
is_smart_contract_call res = not (res.input === "0x")

module _ {D : Type 0} (deps : Deps D) where
  open deps use {get_address, publish_error}

  abbrev pub transaction_log : TxReceipt → DecodedLog → TransactionLog
  transaction_log tx_receipt log = record {
    tx_hash = tx_receipt.transaction_hash;
    name = log.name;
    signature = log.signature;
    topic = log.topic;
    address = log.address;
    args = args_of [] log.inputs;
  }

  unfoldable pub decode_tx_logs : TxReceipt → Task (App D) (List TransactionLog)
  decode_tx_logs tx_receipt = do
    decoded_logs ← or_fail cannot_decode (deps.decode_logs tx_receipt.logs)
    pure (map (transaction_log tx_receipt) decoded_logs)

  unfoldable pub decode_tx_details : TxResponse → SmartContractCall
  decode_tx_details tx_res = elim (deps.decode_tx tx_res) [
    | none ↦ record { method = "unknown"; signature = "external"; args = [] }
    | some decoded_tx ↦ record {
      method = decoded_tx.name;
      signature = decoded_tx.signature;
      args = args_of [] decoded_tx.inputs;
    }
  ]

  -- The receipt of the message, or the provider's.
  unfoldable pub find_receipt : TxDiscoveredPayload → Task (App D) (Option TxReceipt)
  find_receipt p = elim p.tx_receipt [
    | some r ↦ pure (some r)
    | none ↦
        catch (on_db (deps.get_transaction_receipt p.blockchain p.hash))
          (λ err. if deps.is_invalid_hash err then throw invalid_tx_hash else pure none)
  ]

  unfoldable pub find_response : TxDiscoveredPayload → Task (App D) (Option TxResponse)
  find_response p = elim p.tx_res [
    | some t ↦ pure (some t)
    | none ↦ on_db (deps.get_transaction p.blockchain p.hash)
  ]

  unfoldable pub find_block : TxDiscoveredPayload → TxReceipt → Task (App D) (Option EthersBlock)
  find_block p receipt = elim p.block [
    | some b ↦ pure (some b)
    | none ↦ on_db (deps.get_block p.blockchain receipt.block_number)
  ]

  -- The rest of `getRawTransaction` for a transaction that succeeded.
  unfoldable pub successful_tx : TxDiscoveredPayload → TxReceipt → Task (App D) (Option RawTx)
  unfolding find_response find_block decode_tx_logs decode_tx_details
  successful_tx p receipt = do
    found_res ← find_response p
    found_block ← find_block p receipt
    logs ← decode_tx_logs receipt
    tx_res ← or_fail no_object found_res
    block ← or_fail no_object found_block
    to ← or_fail invalid_address (checksumed get_address tx_res.to)
    from ← or_fail invalid_address (checksumed get_address (some tx_res.from))
    pure (
        some (record {
          hash = p.hash;
          block_height = receipt.block_number;
          timestamp = block.timestamp * 1000;
          input = tx_res.input;
          to = to;
          from = from;
          value = deps.number_text tx_res.value;
          logs = logs;
          smart_contract_call =
              if is_smart_contract_call tx_res then some (decode_tx_details tx_res) else none;
        }))

  abbrev pub by_status : TxDiscoveredPayload → TxReceipt → Option ℕ → Task (App D) (Option RawTx)
  by_status p receipt none = throw receipt_not_available
  by_status p receipt (some status) = if status === 0 then pure none else successful_tx p receipt

  abbrev pub by_receipt : TxDiscoveredPayload → Option TxReceipt → Task (App D) (Option RawTx)
  by_receipt p none = throw receipt_not_available
  by_receipt p (some receipt) = by_status p receipt receipt.status

  unfoldable pub get_raw_transaction : TxDiscoveredPayload → Task (App D) (Option RawTx)
  unfolding find_receipt successful_tx
  get_raw_transaction p = do
    on_db (deps.get_provider p.blockchain)
    receipt ← find_receipt p
    by_receipt p receipt

  -- The processors on the transaction object.
  abbrev pub processed : TxProps → Task (App D) TxProps
  processed tx w = elim (process deps.strategies (record { db = w.db; tx = tx })) [
    | returns _ s ↦ returns s.tx (record w { db = s.db })
    | throws e s ↦ throws e (record w { db = s.db })
  ]

  abbrev pub unprocessed : TxDiscoveredPayload → RawTx → TxProps
  unprocessed p raw = record {
    blockchain = p.blockchain;
    hash = p.hash;
    type = TxType.unknown;
    raw = raw;
    content = no_data;
  }

  unfoldable pub execute : TxDiscoveredPayload → Task (App D) (Unit {0})
  unfolding get_raw_transaction create
  execute p = do
    successfull_tx ← get_raw_transaction p
    elim successfull_tx [
      | none ↦ pure tt
      | some raw ↦ do
        unprocessed_tx ← create deps.schemas (unprocessed p raw)
        tx ← processed unprocessed_tx
        publish publish_error (tx_processed p.blockchain tx)
    ]
