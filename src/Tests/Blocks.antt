-- ===== src/Tests/Blocks.antt =====
-- Runs of the listener on a provider that has every block.
use block_listener.Base.{
  String, Option, true, ℕ, zero, suc, ◌+◌, ◌≤◌, ◌≡◌, refl, [], ◌++◌, none, some, arith,
}
use block_listener.Values.{BlockchainId}
use block_listener.App.{App}
use block_listener.Base.Task.{returns, Task}
use block_listener.Rabbitmq.{vhost_config}
use block_listener.Rabbitmq.Client.{get_pending_messages}
use block_listener.UseCases.BlockListener.Progress.{IsAnswered, listener_rounds-progress}
use block_listener.UseCases.BlockListener.Waiting.{listener_round-awake}
use block_listener.UseCases.BlockListener.{listener_round, Deps, listener_rounds}
use block_listener.UseCases.BlockListener.Sequence.{
  heights, IsServed, heights_from, listener_rounds-sequence,
}

abbrev deps : Deps ℕ
deps = record {
  get_provider = λ b d. returns tt d;
  get_block_with_transactions =
      λ b n d. returns (some (record { number = n; timestamp = 5; transactions = [] })) (d + 1);
  get_receipts = λ b n d. returns [] d;
  number = λ t. 1;
  is_big_number = λ t. true;
  get_pending_messages = λ d. returns 0 d;
  max_save_tx_messages_to_halt = 10;
  sleep = λ d. d;
  get_native_price = λ b t d. returns tt d;
  create_block = λ p. some p;
  number_text = λ n. elim n [ zero ↦ "0" | suc m ↦ "more" ];
  parse_int = λ s. 0;
  save_block = λ p d. returns tt d;
  find_latest_block = λ b d. returns none d;
  get_default_block = λ b d. returns 7 d;
  publish_error = λ m d. none;
}

served : IsServed deps BlockchainId.ethereum
served = record {
  answers = λ n s t b h. ground arith;
  creates = λ p. refl;
  stores = λ p s. (s, refl);
}

abbrev start : App ℕ
start = record { db = 0; effects = [] }

listener_rounds-sequence_example :
    (j : ℕ) × (t : App ℕ) × (j ≤ 3)
    × (listener_rounds deps BlockchainId.ethereum 2 3 8 start ≡ returns (8 + j) t)
    × (heights t.effects ≡ heights_from deps 8 j ++ [])
listener_rounds-sequence_example =
    listener_rounds-sequence deps BlockchainId.ethereum served 2 3 8 start

answered : IsAnswered deps BlockchainId.ethereum
answered = record {
  has_block = λ n d. (record { number = n; timestamp = 5; transactions = [] }, d + 1, refl);
  has_price = λ t d. (d, refl);
}

listener_rounds-progress_example :
    (t : App ℕ) × (listener_rounds deps BlockchainId.ethereum 2 3 8 start ≡ returns 11 t)
    × (heights t.effects ≡ heights_from deps 8 3 ++ [])
listener_rounds-progress_example =
    listener_rounds-progress deps BlockchainId.ethereum served answered 2 3 8 start

-- A provider without new blocks, and the broker's client with a long queue.
abbrev queue_len : String → Task ℕ (Option ℕ)
queue_len name d = returns (some 1_000_000) d

abbrev idle : Deps ℕ
idle = record deps {
  get_block_with_transactions = λ b n d. returns none (d + 1);
  get_pending_messages =
      get_pending_messages (some (vhost_config "amqp://rabbit")) queue_len
        "discovered_tx_to_process";
  sleep = λ d. 100;
}

listener_round-awake_example :
    listener_round idle BlockchainId.ethereum 3 8 start ≡ returns 8 (record start { db = 1 })
listener_round-awake_example =
    listener_round-awake idle BlockchainId.ethereum "amqp://rabbit" queue_len (λ s. refl) 2 8 start
      1 refl
