-- ===== src/Status.antt =====
-- Api/Http/Controllers/StatusController.ts, the queue status of
-- Infrastructure/Broker/Rabbitmq/RabbitMqClient.ts and App/UseCases/StatusNotifier.ts.
pub mod Dead
pub mod Page
use Prim.Native.String.{◌++◌}
use block_listener.Base.{
  ℕ, zero, ◌+◌, String, Bool, true, false, List, [], ◌∷◌, map, Option, none, some, if◌then◌else◌,
  get_or, ◌===◌, nat_eq, nat_beq,
}
use Prim.Native.Char.{code}
use block_listener.Base.Task.{Outcome, returns, throws, Task, pure, ◌>>=◌, promise_all}
use block_listener.Values.{BlockchainId, TxType, WalletType, blockchain_text, block_link}
use block_listener.Entities.Token.{BlockProps}
use block_listener.Rabbitmq.Objects.{Object, assign, lookup, replace_first}

pub record QueueStatus : Type 0 where
  pub processing : ℕ
  pub retrying : ℕ
  pub dead : ℕ

-- `text.startsWith(prefix)`, on the characters.
unfoldable pub starts_with : String → String → Bool
starts_with String.[] text = true
starts_with (String.◌∷◌ c prefix_text) String.[] = false
starts_with (String.◌∷◌ c prefix_text) (String.◌∷◌ d text) =
    let rest = starts_with prefix_text text in if code c === code d then rest else false

abbrev pub no_status : QueueStatus
no_status = record { processing = 0; retrying = 0; dead = 0 }

-- The status of a queue with what one of its three queues holds.
abbrev pub counted : String → ℕ → QueueStatus → QueueStatus
unfolding starts_with
counted name messages status =
    if starts_with "dead_" name
    then record status { dead = messages }
    else if starts_with "retry_" name
    then record status { retrying = messages }
    else record status { processing = messages }

unfoldable pub broker_status_step : Object QueueStatus → String × ℕ → Object QueueStatus
unfolding replace_first assign lookup counted
broker_status_step object (name, messages) =
    let queue = replace_first (replace_first name "dead_" "") "retry_" "" in
    let status = counted name messages (get_or (lookup queue object) no_status) in
    assign queue (record status { retrying = messages }) object

unfoldable pub broker_status_from : Object QueueStatus → List (String × ℕ) → Object QueueStatus
unfolding broker_status_step
broker_status_from object [] = object
broker_status_from object (q ∷ queues) = broker_status_from (broker_status_step object q) queues

-- `getAllQueueStatus` gives the name and the messages of every queue of the vhost.
unfoldable pub get_broker_status :
    {D : Type 0} → Task D (List (String × ℕ)) → Task D (Object QueueStatus)
unfolding broker_status_from
get_broker_status get_all_queue_status = do
  queues ← get_all_queue_status
  pure (broker_status_from [] queues)

pub record Counter : Type 0 where
  pub tokens : ℕ
  pub whales : ℕ
  pub unknown_wallets : ℕ
  pub total_wallets : ℕ
  pub dex_swaps : ℕ
  pub eth_transfers : ℕ
  pub unknown_txs : ℕ
  pub total_txs : ℕ

-- The totals that `findAll` answers for a type. They are asked for together, and only read.
module _ {D : Type 0} (total_txs_of : TxType → Task D ℕ) (total_wallets_of : WalletType → Task D ℕ)
    (total_tokens : Task D ℕ) where
  unfoldable pub get_counter : Task D Counter
  get_counter = do
    dex_swaps ← total_txs_of TxType.dex_swap
    unknown_txs ← total_txs_of TxType.unknown
    eth_transfers ← total_txs_of TxType.eth_transfer
    wallets ← total_wallets_of WalletType.whale
    unknown_wallets ← total_wallets_of WalletType.unknown_wallet
    tokens ← total_tokens
    pure (record {
      tokens = tokens;
      whales = wallets;
      unknown_wallets = unknown_wallets;
      total_wallets = wallets + unknown_wallets;
      dex_swaps = dex_swaps;
      eth_transfers = eth_transfers;
      unknown_txs = unknown_txs;
      total_txs = eth_transfers + dex_swaps + unknown_txs;
    })

pub record LatestBlock : Type 0 where
  pub height : String
  pub timestamp : String
  pub link : String

abbrev pub latest_block_entry :
    (ℕ → String) → Object LatestBlock → Option BlockProps → Object LatestBlock
unfolding assign block_link
latest_block_entry to_iso_string object none = object
latest_block_entry to_iso_string object (some block) =
    assign (blockchain_text block.blockchain)
      (record {
        height = block.height;
        timestamp = to_iso_string block.timestamp;
        link = block_link block.blockchain block.height;
      })
      object

unfoldable pub latest_blocks_from :
    (ℕ → String) → Object LatestBlock → List (Option BlockProps) → Object LatestBlock
unfolding latest_block_entry
latest_blocks_from to_iso_string object [] = object
latest_blocks_from to_iso_string object (block ∷ blocks) =
    latest_blocks_from to_iso_string (latest_block_entry to_iso_string object block) blocks

unfoldable pub get_latest_blocks :
    {D : Type 0}
    → (ℕ → String)
    → (BlockchainId → Task D (Option BlockProps))
    → List BlockchainId
    → Task D (Object LatestBlock)
unfolding promise_all latest_blocks_from
get_latest_blocks to_iso_string find_latest_block enabled_blockchains = do
  blocks ← promise_all find_latest_block enabled_blockchains
  pure (latest_blocks_from to_iso_string [] blocks)

-- `buildStatusMessageFromApi`, with `toUpperCase` and the decimal text of a number.
module _ (to_upper_case : String → String) (number_text : ℕ → String) where
  abbrev pub block_lines : String → Object LatestBlock → String
  block_lines msg [] = msg
  block_lines msg ((chain, block) ∷ blocks) =
      block_lines
        (msg
          ++ ("\n["
              ++ (to_upper_case chain
                  ++ ("]\nHeight: "
                      ++ (block.height
                          ++ ("\nDate: " ++ (block.timestamp ++ ("\nLink: " ++ block.link))))))))
        blocks

  unfoldable pub dead_lines : String → Object QueueStatus → String
  dead_lines msg [] = msg
  dead_lines msg ((queue, status) ∷ queues) =
      dead_lines
        (if status.dead === 0
          then msg
          else msg ++ ("\n" ++ (queue ++ (": " ++ number_text status.dead))))
        queues

  unfoldable pub build_status_message_from_api : Object LatestBlock → Object QueueStatus → String
  unfolding dead_lines
  build_status_message_from_api latest_blocks broker =
      block_lines "BlockListener Status:" latest_blocks
      ++ ("\n\n" ++ (dead_lines "Broker Dead Messages:" broker ++ "\n\n#blocklistener #status"))
