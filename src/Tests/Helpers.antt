-- ===== src/Tests/Helpers.antt =====
-- Runs of the helpers on addresses and objects, of the logger, and of the requests for a price and for
-- the queues.
use block_listener.Base.{String, false, ◌≡◌, refl, [], ◌∷◌, none, some, ◌>>=◌}
use block_listener.Base.Task.{returns, throws, throw}
use block_listener.Values.{BlockchainId}
use block_listener.Price.CryptoCompare.{
  Deps, get_blockchain_native_token_usd_price, get_blockchain_native_token_usd_value,
}
use block_listener.Utils.Address.{checksumed, to_lower_case}
use block_listener.Utils.Address.Map.{create_addr_map, prepared_from, get_prop, set_prop}
use block_listener.Utils.Flat.{
  Entries, plain, nullish, nested, end, entry, flatten_entries, flatten_object,
}
use block_listener.Logger.{
  LogEntryParams, error_object, normalized, error, log_error, prepare_entry,
}
use block_listener.Rabbitmq.Client.{failure}
use block_listener.Rabbitmq.Client.Calls.{Rascal, get_all_queue_status, publish}
use block_listener.Rabbitmq.Objects.{Object, assign, lookup}

abbrev context : Entries String
context = entry "chain" (plain "eth") (entry "tx" (nested (entry "hash" (plain "0x1") end)) end)

flattened :
    flatten_object {V = String} context "context" []
    ≡ some (("context.chain", "eth") ∷ ("context.tx.hash", "0x1") ∷ [])
unfolding flatten_entries
flattened = refl

flattened_null :
    flatten_object {V = String} (entry "tx" nullish (entry "a" (plain "b") end)) "" [] ≡ none
unfolding flatten_entries
flattened_null = refl

abbrev stored : Object String
stored = ("0xAB", "a") ∷ []

read_in_lower_case :
    (create_addr_map some stored >>= λ created.
    set_prop some created "0xCd" "b" >>= λ changed. get_prop some changed "0xAb")
    ≡ some (some "a")
unfolding prepared_from get_prop set_prop checksumed to_lower_case assign lookup
read_in_lower_case = refl

-- The price is the name of what was asked for.
abbrev prices : Deps String String
prices = record {
  get_usd = λ url asked. returns "1500" url;
  multiplied_by = λ price amount. amount;
}

asked_for :
    get_blockchain_native_token_usd_value prices BlockchainId.polygon "2" 0 ""
    ≡ returns "2" "https://min-api.cryptocompare.com/data/price?fsym=MATIC&tsyms=USD"
unfolding get_blockchain_native_token_usd_price get_blockchain_native_token_usd_value
asked_for = refl

-- The state is what was last logged, and nothing can be published.
abbrev offline : Rascal String String
offline = record {
  publish = λ channel payload. throw (failure "Error" "closed");
  subscribe = λ channel s. returns tt s;
  cancel = λ channel s. returns tt s;
  log_error = λ channel e s. returns tt channel;
  log = λ message s. returns tt message;
  get_data = λ url s. returns "queues" url;
  parse_queues = λ text. some (record { name = "save_token"; messages = 3 } ∷ []);
}

not_published :
    publish offline "save_token" "payload" "" ≡ throws (failure "Error" "closed") "save_token"
unfolding publish
not_published = refl

queues_of_vhost : get_all_queue_status offline "" ≡ returns (("save_token", 3) ∷ []) "/queues/%2F"
unfolding get_all_queue_status
queues_of_vhost = refl

abbrev failed_entry : LogEntryParams String String
failed_entry = record {
  message = "Failed message";
  type = "pubsub.publish";
  success = none;
  entry_error = some (error_object "Error" "closed" "at publish");
  context = some "save_token";
}

logged_failure :
    log_error failed_entry 5 []
    ≡ record {
      params = record failed_entry {
        success = some false;
        entry_error = some (normalized "Error" "closed");
      };
      time = 5;
      level = error;
    }
      ∷ []
unfolding prepare_entry
logged_failure = refl
