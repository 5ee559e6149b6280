-- ===== src/Tests/Pages.antt =====
-- Runs of the pages of a collection, of the status page, of the choice of a node and of the wait.
use block_listener.Base.{
  ℕ, ◌-◌, ◌<◌, String, Bool, true, false, any, ◌≡◌, refl, sym, ap, List, [], ◌∷◌, map, none, some,
  string_eq, ◌===◌, arith,
}
use block_listener.Base.Task.{Outcome, returns, throws, Task}
use block_listener.Values.{BlockchainId}
use block_listener.Rabbitmq.{vhost_config}
use block_listener.Rabbitmq.Objects.{Object}
use block_listener.Status.{Counter, LatestBlock, get_broker_status, broker_status_from}
use block_listener.Status.Page.{StatusResponse, ApiResponse, index, notify, notify-dead}
use block_listener.Providers.{JsonRpcConfig, Node, prepare_node_list, get_provider}
use block_listener.Providers.Choice.{is_enabled_url, get_provider-available}
use block_listener.UseCases.BlockListener.{Deps, listener_rounds, start_blockchain_listener}
use block_listener.UseCases.BlockListener.Resumption.{start_blockchain_listener-resumes}
use block_listener.Entities.Token.{BlockProps}
use block_listener.Repository.Blocks.{find_latest_block, decimal}

abbrev queue_status : Task (List String) (List (String × ℕ))
queue_status s = returns (map (λ q. (q, 3)) (vhost_config "amqp://").queues) s

abbrev queues_of : Outcome (List String) (List (String × ℕ)) → List (String × ℕ)
queues_of (returns queues s) = queues
queues_of (throws e s) = []

abbrev no_counter : Counter
no_counter = record {
  tokens = 0;
  whales = 0;
  unknown_wallets = 0;
  total_wallets = 0;
  dex_swaps = 0;
  eth_transfers = 0;
  unknown_txs = 0;
  total_txs = 0;
}

abbrev latest : Object LatestBlock
latest = ("polygon", record { height = "7"; timestamp = "today"; link = "scan" }) ∷ []

-- The page of a vhost whose queues hold three messages each.
abbrev status_page : ApiResponse StatusResponse
unfolding get_broker_status
status_page = record {
  success = true;
  payload = record {
    v = "1";
    latest_blocks = latest;
    counter = no_counter;
    broker = broker_status_from [] (map (λ q. (q, 3)) (vhost_config "amqp://").queues);
  };
}

abbrev send_text : String → Task (List String) (Unit {0})
send_text text sent = returns tt (text ∷ sent)

notify-dead_example :
    notify
      (λ t. t)
      (λ n. "3")
      (returns "page")
      (λ text. some status_page)
      (record { is_direct_to_dead = false; name = ""; message = ""; stack = "" })
      send_text
      []
    ≡ returns tt (
        "BlockListener Status:\n[polygon]\nHeight: 7\nDate: today\nLink: scan\n\nBroker Dead Messages:\n\n#blocklistener #status"
        ∷ [])
unfolding index get_broker_status
notify-dead_example =
    notify-dead (λ t. t) (λ n. "3") (returns "page") (λ text. some status_page)
      (record { is_direct_to_dead = false; name = ""; message = ""; stack = "" }) send_text
      "amqp://" (λ q. 3) queue_status (returns latest) (returns no_counter) [] [] [] [] status_page
      "page" (λ s t queues done. ap queues_of (sym done)) refl refl refl

-- The bottleneck of the second node is free.
abbrev is_free : String → Bool
is_free url = url === "b"

abbrev configs : List JsonRpcConfig
configs =
    record { max_concurrent = none; min_time = none; disabled = none; url = "a" }
    ∷ record { max_concurrent = none; min_time = none; disabled = some true; url = "c" }
    ∷ record { max_concurrent = none; min_time = none; disabled = some false; url = "b" }
    ∷ []

abbrev nodes : List Node
nodes =
    record { url = "a"; max_concurrent = none; min_time = none }
    ∷ record { url = "b"; max_concurrent = none; min_time = none }
    ∷ []

get_provider-available_example :
    (url : String) × (get_provider {D = ℕ}
        (λ u s. returns (is_free u) s)
        (λ n s. returns 0 s)
        false
        nodes
        5
      ≡ returns url 5)
    × (is_enabled_url url configs ≡ true)
    × (is_free url ≡ any (λ n. is_free n.url) nodes)
unfolding prepare_node_list
get_provider-available_example =
    get_provider-available (λ u s. returns (is_free u) s) is_free (λ u s. refl) (λ n s. returns 0 s)
      configs nodes 0 5 5 refl refl (omega arith)

-- A broker with as many messages as the state says, of which a sleep takes ten.
abbrev draining : Deps ℕ
draining = record {
  get_provider = λ b d. returns tt d;
  get_block_with_transactions = λ b n d. returns none d;
  get_receipts = λ b n d. returns [] d;
  number = λ t. 1;
  is_big_number = λ t. true;
  get_pending_messages = λ d. returns d d;
  max_save_tx_messages_to_halt = 20;
  sleep = λ d. d - 10;
  get_native_price = λ b n d. returns tt d;
  create_block = λ props. none;
  number_text = λ n. "";
  parse_int = λ t. 0;
  save_block = λ b d. returns tt d;
  find_latest_block = λ b d. returns none d;
  get_default_block = λ b d. returns 0 d;
  publish_error = λ m d. none;
}

-- Two stored blocks; 999 is sorted after 998.
abbrev block_at : String → BlockProps
block_at height = record { height = height; blockchain = BlockchainId.ethereum; timestamp = 0 }

abbrev find_last : BlockchainId → Task ℕ (List BlockProps)
find_last b d = returns (block_at "999" ∷ []) d

abbrev resuming : Deps ℕ
resuming = record draining {
  find_latest_block = find_latest_block find_last;
  parse_int = decimal 0;
}

start_blockchain_listener-resumes_example :
    (start_blockchain_listener resuming BlockchainId.ethereum 5 6 (record { db = 4; effects = [] })
      ≡ listener_rounds resuming BlockchainId.ethereum 5 6 1000 (record { db = 4; effects = [] }))
    × (998 < 1000)
start_blockchain_listener-resumes_example =
    start_blockchain_listener-resumes resuming BlockchainId.ethereum find_last (λ b d. refl)
      (λ s t digits. refl) (block_at "998") (block_at "999") 5 6 (record { db = 4; effects = [] }) 4
      4 refl refl refl refl (ground arith)
