-- ===== src/Config.antt =====
-- Config/Config.ts: the settings, over the variables of the environment; and App/Utils/Env.ts.
pub mod Required
use block_listener.Base.{
  ℕ, String, Bool, true, List, [], ◌∷◌, Option, none, some, if◌then◌else◌, ◌===◌, string_eq, ◌>>=◌,
}
use block_listener.Values.{BlockchainId}
use block_listener.Http.{get_env}
use block_listener.Providers.{JsonRpcConfig, Node, prepare_node_list}

pub data StartingBlock : Type 0 where
  latest : StartingBlock
  -- `none` is `NaN`
  at_block : Option ℕ → StartingBlock

pub record TxRuleConfig : Type 0 where
  pub min_native_transfer_value_in_usd : String
  pub min_dex_swap_value_in_usd : String

pub record Settings : Type 0 where
  pub discord_hook : String
  pub redis_url : String
  pub disable_providers_bottleneck : Bool
  pub providers : List (BlockchainId × List Node)
  pub enabled_blockchains : List BlockchainId
  pub database : String
  pub connection_uri : String
  pub logtail_access_token : Option String
  pub port : String
  pub broker_uri : String
  pub broker_api_url : String
  pub tx_rules : BlockchainId → TxRuleConfig
  pub covalent_api_key : String
  pub finnhub_api_key : String
  pub default_starting_block : StartingBlock
  pub max_save_tx_messages_to_halt : Option ℕ

-- `${100_000}` and `${50_000}`
abbrev pub tx_rules : BlockchainId → TxRuleConfig
tx_rules BlockchainId.ethereum = record {
  min_native_transfer_value_in_usd = "100000";
  min_dex_swap_value_in_usd = "50000";
}
tx_rules BlockchainId.binance = record {
  min_native_transfer_value_in_usd = "NOT_NEEDED";
  min_dex_swap_value_in_usd = "NOT_NEEDED";
}
tx_rules BlockchainId.polygon = record {
  min_native_transfer_value_in_usd = "NOT_NEEDED";
  min_dex_swap_value_in_usd = "NOT_NEEDED";
}

-- `${blockchain.toUpperCase()}_JSON_RPC_URLS`
abbrev pub urls_variable : BlockchainId → String
urls_variable BlockchainId.ethereum = "ETHEREUM_JSON_RPC_URLS"
urls_variable BlockchainId.binance = "BSC_JSON_RPC_URLS"
urls_variable BlockchainId.polygon = "POLYGON_JSON_RPC_URLS"

abbrev pub text_or_none : String → Option String
text_or_none text = if text === "" then none else some text

-- The errors of `getConfig` are `none`. The environment, `JSON.parse` of a list of nodes, and `Number` and `parseInt`.
module _ (env : String → Option String) (parse_nodes : String → Option (List JsonRpcConfig))
    (number parse_int : String → Option ℕ) where
  unfoldable pub nodes_of : BlockchainId → Option (List Node)
  unfolding get_env prepare_node_list
  nodes_of blockchain = do
    json_rpc_url_cfgs ← get_env (env (urls_variable blockchain)) (some "")
    (if json_rpc_url_cfgs === ""
        then some []
        else (parse_nodes json_rpc_url_cfgs >>= prepare_node_list))

  abbrev pub starting_block : String → StartingBlock
  starting_block def = if def === "latest" then latest else at_block (parse_int def)

  unfoldable pub get_config : Option Settings
  unfolding get_env nodes_of
  get_config = do
    logtail_access_token ← get_env (env "LOGTAIL_ACCESS_TOKEN") (some "")
    discord_hook ← get_env (env "DISCORD_STATUS_WEBHOOK_URL") none
    redis_url ← get_env (env "REDIS_URL") none
    ethereum_nodes ← nodes_of BlockchainId.ethereum
    binance_nodes ← nodes_of BlockchainId.binance
    polygon_nodes ← nodes_of BlockchainId.polygon
    database ← get_env (env "DATABASE_NAME") (some "blocklistener")
    connection_uri ← get_env (env "DATABASE_URI") none
    port ← get_env (env "PORT") (some "80")
    broker_uri ← get_env (env "BROKER_URI") none
    broker_api_url ← get_env (env "BROKER_API_URL") none
    covalent_api_key ← get_env (env "COVALENT_API_KEY") none
    finnhub_api_key ← get_env (env "FINNHUB_API_KEY") none
    def ← get_env (env "DEF_LISTENER_START_BLOCK") (some "latest")
    max_messages ← get_env (env "MAX_SAVE_TX_MSGS_TO_HALT") (some "10000")
    some (record {
      discord_hook = discord_hook;
      redis_url = redis_url;
      disable_providers_bottleneck = true;
      providers =
          (BlockchainId.ethereum, ethereum_nodes)
          ∷ (BlockchainId.binance, binance_nodes)
          ∷ (BlockchainId.polygon, polygon_nodes)
          ∷ [];
      enabled_blockchains = BlockchainId.ethereum ∷ [];
      database = database;
      connection_uri = connection_uri;
      logtail_access_token = text_or_none logtail_access_token;
      port = port;
      broker_uri = broker_uri;
      broker_api_url = broker_api_url;
      tx_rules = tx_rules;
      covalent_api_key = covalent_api_key;
      finnhub_api_key = finnhub_api_key;
      default_starting_block = starting_block def;
      max_save_tx_messages_to_halt = number max_messages;
    })
