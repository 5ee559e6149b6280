-- ===== src/Tests/Processing.antt =====
-- Runs of the use case that processes transactions.
use block_listener.Base.{
  ℕ, ◌+◌, ◌≡◌, refl, true, [], ◌∷◌, none, some, ◌===◌, string_eq, if◌then◌else◌,
}
use block_listener.Base.Task.{Thrown, returns, throws, state_of}
use block_listener.Values.{BlockchainId}
use block_listener.Messages.{TxResponse, TxReceipt, EthersBlock, TxDiscoveredPayload}
use block_listener.App.{App}
use block_listener.Executor.Message.{ExecutorMsgPayload, ExecutorMessage}
use block_listener.Executor.{
  Executor, default_options, published, acked, Callbacks, dead_channel, execution_wrapper,
}
use block_listener.UseCases.ProcessTx.{Deps, error_named, execute}
use block_listener.UseCases.ProcessTx.Published.{Ends, execute-Ends}
use block_listener.App.{sent}
use block_listener.Messages.{tx_processed}
use block_listener.Utils.Address.{checksumed, to_lower_case}
use block_listener.TxProcessor.{process}
use block_listener.UseCases.ProcessTx.{unprocessed}
use block_listener.UseCases.ProcessTx.Outcomes.{execution_wrapper-execute_lem}

abbrev invalid_hash : Thrown
invalid_hash = error_named "invalid hash" "invalid hash"

-- A provider that refuses every receipt, the one of "0xbad" as an invalid hash, and no strategies.
abbrev deps : Deps ℕ
deps = record {
  get_provider = λ b d. returns tt d;
  get_transaction_receipt = λ b h d.
      if h === "0xbad"
      then throws invalid_hash (d + 1)
      else throws (error_named "Error" "timeout") (d + 1);
  is_invalid_hash = λ e. e.name === "invalid hash";
  get_transaction = λ b h d. returns none (d + 1);
  get_block = λ b n d. returns none (d + 1);
  decode_logs = λ ls. some [];
  decode_tx = λ t. none;
  number_text = λ s. s;
  get_address = λ a. some a;
  schemas = record { dex_swap_value = λ d. d; eth_transfer_value = λ d. d; tx_value = λ t. some t };
  strategies = [];
  publish_error = λ m d. none;
}

abbrev response : TxResponse
response = record { hash = "0x1"; input = "0xff"; to = some "0xB"; from = "0xA"; value = "5" }

abbrev receipt : ℕ → TxReceipt
receipt status = record {
  transaction_hash = "0x1";
  block_number = 7;
  status = some status;
  logs = [];
}

abbrev block : EthersBlock
block = record { number = 7; timestamp = 3; transactions = "0x1" ∷ [] }

abbrev complete : ℕ → TxDiscoveredPayload
complete status = record {
  blockchain = BlockchainId.polygon;
  hash = "0x1";
  save_unknown = none;
  save_destination_address = some true;
  tx_res = some response;
  tx_receipt = some (receipt status);
  block = some block;
}

abbrev bare : TxDiscoveredPayload
bare = record (complete 1) { hash = "0xbad"; tx_res = none; tx_receipt = none; block = none }

abbrev start : App ℕ
start = record { db = 0; effects = [] }

abbrev process_tx : Executor (App ℕ) TxDiscoveredPayload
process_tx = record {
  options = default_options;
  channel = "discovered_tx_to_process";
  execute = λ m w. execute deps m.payload.fields w;
  date_now = λ w. 100;
  publish_error = λ m w. none;
}

abbrev delivery : ExecutorMsgPayload TxDiscoveredPayload
delivery = record {
  retries = 2;
  max_retries = 10;
  payload = record { fields = bare; error = none };
  process_after = 0;
  error = none;
}

abbrev quiet : Callbacks
quiet = record { ack_error = none; nack_error = none }

execution_wrapper-execute_lem_example :
    (n : ExecutorMessage TxDiscoveredPayload) × ((state_of (
        execution_wrapper process_tx delivery quiet (record { inner = start; events = [] }))).events
      ≡ acked ∷ published n ∷ [])
    × (n.channel ≡ dead_channel process_tx)
    × (n.body.retries ≡ 0)
    × (n.body.payload.fields ≡ bare)
execution_wrapper-execute_lem_example =
    execution_wrapper-execute_lem deps process_tx (λ m w. refl) (λ m w. refl) delivery quiet
      (record { inner = start; events = [] }) invalid_hash 0 1 refl refl refl refl

execute-Ends_example : Ends deps (complete 1) start (execute deps (complete 1) start)
execute-Ends_example = execute-Ends deps (complete 1) start

-- Of the three ways, this message takes the last.
one_sent : state_of (execute deps (complete 1) start) ≡ record {
  db = 0;
  effects =
      sent (
        tx_processed BlockchainId.polygon (
          unprocessed deps (complete 1) (record {
            hash = "0x1";
            block_height = 7;
            timestamp = 3000;
            input = "0xff";
            to = "0xb";
            from = "0xa";
            value = "5";
            logs = [];
            smart_contract_call =
                some (record { method = "unknown"; signature = "external"; args = [] });
          })))
      ∷ [];
}
unfolding execute checksumed to_lower_case process
one_sent = refl
