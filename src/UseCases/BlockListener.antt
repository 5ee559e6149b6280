-- ===== src/UseCases/BlockListener.antt =====
-- App/UseCases/BlockListener.ts: the endless loop by its rounds. What the source does not await is
-- run where it is started, and its errors are dropped.
pub mod Receipts
pub mod Sequence
pub mod Progress
pub mod Waiting
pub mod Draining
pub mod Resumption
use block_listener.Base.{
  ℕ, zero, suc, ◌+◌, ◌*◌, ◌%◌, String, Bool, true, false, not, List, [], ◌∷◌, map, find, Option,
  none, some, if◌then◌else◌, ltb, nat_beq, ◌===◌, string_eq,
}
use block_listener.Base.Task.{
  Thrown, Outcome, returns, throws, Task, pure, throw, ◌>>=◌, ◌>>◌, catch, promise_all, or_fail,
}
use Receipts.{RawReceipt, invalid_big_number, map_raw_receipts}
use block_listener.Values.{BlockchainId}
use block_listener.Entities.Token.{BlockProps}
use block_listener.Entities.Tx.{validation_error}
use block_listener.Messages.{Message, TxResponse, TxReceipt, EthersBlock, tx_discovered}
use block_listener.Utils.Address.{to_lower_case}
use block_listener.App.{App, Effect, stored_block, on_db, store, publish}

pub record BlockWithTransactions : Type 0 where
  pub number : ℕ
  pub timestamp : ℕ
  pub transactions : List TxResponse

pub record Deps (D : Type 0) : Type 0 where
  -- `getProvider`, which throws where there is no node
  pub get_provider : BlockchainId → Task D (Unit {0})
  -- `provider.getBlockWithTransactions` and `alchemy_getTransactionReceipts`
  pub get_block_with_transactions : BlockchainId → ℕ → Task D (Option BlockWithTransactions)
  pub get_receipts : BlockchainId → ℕ → Task D (List RawReceipt)
  -- `Number`, and the texts that `BigNumber.from` takes
  pub number : String → ℕ
  pub is_big_number : String → Bool
  pub get_pending_messages : Task D ℕ
  pub max_save_tx_messages_to_halt : ℕ
  -- `sleep(60_000)`
  pub sleep : D → D
  pub get_native_price : BlockchainId → ℕ → Task D (Unit {0})
  -- `Block.create`, `none` where it throws, and the decimal text of a number
  pub create_block : BlockProps → Option BlockProps
  pub number_text : ℕ → String
  pub parse_int : String → ℕ
  pub save_block : BlockProps → Task D (Unit {0})
  pub find_latest_block : BlockchainId → Task D (Option BlockProps)
  pub get_default_block : BlockchainId → Task D ℕ
  pub publish_error : Message → D → Option Thrown

-- `receipt.transactionHash.toLowerCase() === tx.hash.toLowerCase()`
abbrev pub is_receipt_of : TxResponse → TxReceipt → Bool
is_receipt_of tx receipt = to_lower_case receipt.transaction_hash === to_lower_case tx.hash

abbrev pub block_without_txs_data : BlockWithTransactions → EthersBlock
block_without_txs_data block = record {
  number = block.number;
  timestamp = block.timestamp;
  transactions = map (λ t. t.hash) block.transactions;
}

abbrev pub tx_event : BlockchainId → BlockWithTransactions → List TxReceipt → TxResponse → Message
tx_event blockchain block receipts tx = tx_discovered (record {
  blockchain = blockchain;
  hash = tx.hash;
  save_unknown = none;
  save_destination_address = some true;
  tx_res = some tx;
  tx_receipt = find (is_receipt_of tx) receipts;
  block = some (block_without_txs_data block);
})

-- `task.then(noop).catch(noop)`
abbrev pub forget : {S A : Type 0} → Task S A → Task S (Unit {0})
forget task s = elim (task s) [ returns _ t ↦ returns tt t | throws _ t ↦ returns tt t ]

-- `Promise.all([a, b])` for the result of `b`
abbrev pub both : {S A B : Type 0} → Task S A → Task S B → Task S B
both a b s = elim (a s) [
  | returns _ t ↦ b t
  | throws e t ↦ elim (b t) [ returns _ u ↦ throws e u | throws _ u ↦ throws e u ]
]

module _ {D : Type 0} (deps : Deps D) (blockchain : BlockchainId) where
  open deps use {get_receipts, get_pending_messages, publish_error}

  unfoldable pub get_transaction_receipts : BlockWithTransactions → Task (App D) (List TxReceipt)
  unfolding map_raw_receipts
  get_transaction_receipts block =
      catch
        (do
          raw_receipts ← on_db (get_receipts blockchain block.number)
          or_fail invalid_big_number
              (map_raw_receipts deps.number deps.is_big_number block.number raw_receipts))
        (λ _. pure [])

  unfoldable pub get_tx_discovered_events : BlockWithTransactions → Task (App D) (List Message)
  unfolding get_transaction_receipts
  get_tx_discovered_events block = do
    receipts ← get_transaction_receipts block
    pure (map (tx_event blockchain block receipts) block.transactions)

  unfoldable pub native_token_price_cache_controller :
      BlockWithTransactions → Task (App D) (Unit {0})
  native_token_price_cache_controller block =
      let cache_price_after_blocks : ℕ = 50 in
      if not (nat_beq (block.number % cache_price_after_blocks) 0)
      then pure tt
      else on_db (deps.get_native_price blockchain (block.timestamp * 1000))

  -- With fuel for its rounds; `false` when it still waits after them.
  unfoldable pub next_round_awaiter : ℕ → Task D Bool
  next_round_awaiter zero = pure false
  next_round_awaiter (suc fuel) = λ s. elim (get_pending_messages s) [
    | throws e t ↦ throws e t
    | returns pending t ↦ elim (ltb pending deps.max_save_tx_messages_to_halt) [
      | true ↦ returns true t
      | false ↦ next_round_awaiter fuel (deps.sleep t)
    ]
  ]

  unfoldable pub get_start_block : Task D ℕ
  get_start_block = do
    latest ← deps.find_latest_block blockchain
    elim latest [
      | some block ↦
          if block.height === ""
          then deps.get_default_block blockchain
          else pure (deps.parse_int block.height)
      | none ↦ deps.get_default_block blockchain
    ]

  abbrev pub block_props : BlockWithTransactions → BlockProps
  block_props block = record {
    blockchain = blockchain;
    height = deps.number_text block.number;
    timestamp = block.timestamp * 1000;
  }

  -- The `try` block up to its first `await`.
  unfoldable pub prepare : BlockWithTransactions → Task (App D) (List Message)
  unfolding native_token_price_cache_controller get_tx_discovered_events
  prepare block = both (native_token_price_cache_controller block) (get_tx_discovered_events block)

  -- The rest of it: the number of the next block.
  unfoldable pub announce_and_store : BlockWithTransactions → List Message → Task (App D) ℕ
  announce_and_store block events = do
    forget (promise_all (publish publish_error) events)
    created ← or_fail validation_error (deps.create_block (block_props block))
    forget (store (stored_block created) (deps.save_block created))
    pure (block.number + 1)

  unfoldable pub take_block : BlockWithTransactions → Task (App D) ℕ
  take_block block = do events ← prepare block; announce_and_store block events

  -- One round of the loop, with fuel for the wait.
  unfoldable pub listener_round : ℕ → ℕ → Task (App D) ℕ
  listener_round fuel next_block_num = do
    block ←
        catch (on_db (deps.get_block_with_transactions blockchain next_block_num)) (λ _. pure none)
    elim block [
      | none ↦ forget (on_db (next_round_awaiter fuel)) >> pure next_block_num
      | some b ↦ catch (take_block b) (λ _. pure next_block_num)
    ]

  unfoldable pub listener_rounds : ℕ → ℕ → ℕ → Task (App D) ℕ
  listener_rounds fuel zero n = pure n
  listener_rounds fuel (suc k) n = λ s. elim (listener_round fuel n s) [
    | returns m t ↦ listener_rounds fuel k m t
    | throws e t ↦ throws e t
  ]

  -- `startBlockchainListener`, for so many rounds.
  unfoldable pub start_blockchain_listener : ℕ → ℕ → Task (App D) ℕ
  start_blockchain_listener fuel rounds = do
    latest_block ← on_db get_start_block
    on_db (deps.get_provider blockchain)
    listener_rounds fuel rounds (latest_block + 1)
