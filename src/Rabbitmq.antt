-- ===== src/Rabbitmq.antt =====
-- Infrastructure/Broker/Rabbitmq: the names and the tables of ConfigCreation.ts, with what
-- `createBrokerConnection` builds of them.
pub mod Names
pub mod Objects
pub mod Topology
pub mod Delivery
pub mod Revival
pub mod Client
pub mod Connection
use Prim.Native.String.{◌++◌}
use block_listener.Base.{
  ℕ, ◌+◌, ◌*◌, String, Bool, ◌||◌, ◌===◌, not, List, [], ◌∷◌, map, Option, none, some, is_some, leb,
  if◌then◌else◌,
}
use block_listener.Base.Task.{Thrown, Outcome, returns, throws, Task, pure, throw, ◌>>=◌, ◌>>◌}
use block_listener.Executor.Channels.{
  retry_prefix, dead_prefix, add_retry_prefix, add_dead_prefix, add_direct_pub_prefix,
}
use Names.{
  Exchange, Queue, RoutingKey, Publication, Subscription, exchange_name, queue_name,
  routing_key_name, publication_name, subscription_name, queue_list, exchange_list,
}
use Objects.{Object, assign, assign_all, replace_first}

-- `PublicationConfig`: to an exchange by a routing key, or straight to a queue.
pub data Target : Type 0 where
  to_exchange : String → String → Target
  to_queue : String → Target

pub record SubscriptionConfig : Type 0 where
  pub queue : Option String
  pub prefetch : Option ℕ

abbrev pub publications_setup : List (Publication × Exchange × RoutingKey)
publications_setup =
    (Publication.tx_discovered, Exchange.tx, RoutingKey.tx_discovered)
    ∷ (Publication.tx_processed, Exchange.tx, RoutingKey.tx_processed)
    ∷ (Publication.tx_saved, Exchange.tx, RoutingKey.tx_saved)
    ∷ (Publication.token_discovered, Exchange.token, RoutingKey.token_discovered)
    ∷ (Publication.wallet_discovered, Exchange.wallet, RoutingKey.wallet_discovered)
    ∷ (Publication.wallet_saved, Exchange.wallet, RoutingKey.wallet_saved)
    ∷ (Publication.wallet_updated, Exchange.wallet, RoutingKey.wallet_updated)
    ∷ []

abbrev pub bindings_setup : List (Exchange × RoutingKey × Queue)
bindings_setup =
    (Exchange.tx, RoutingKey.tx_discovered, Queue.process_tx)
    ∷ (Exchange.tx, RoutingKey.tx_processed, Queue.save_tx_of_interest)
    ∷ (Exchange.token, RoutingKey.token_discovered, Queue.save_token)
    ∷ (Exchange.wallet, RoutingKey.wallet_discovered, Queue.save_wallet)
    ∷ []

abbrev pub subscription_queue : Subscription → Queue
subscription_queue Subscription.discovered_tx_to_process = Queue.process_tx
subscription_queue Subscription.tx_processed = Queue.save_tx_of_interest
subscription_queue Subscription.save_token = Queue.save_token
subscription_queue Subscription.save_wallet = Queue.save_wallet

abbrev pub subscription_prefetch : Subscription → Option ℕ
subscription_prefetch Subscription.discovered_tx_to_process = some 100
subscription_prefetch Subscription.tx_processed = some 100
subscription_prefetch Subscription.save_token = none
subscription_prefetch Subscription.save_wallet = some 20

subscription_entry : Subscription → String × SubscriptionConfig
subscription_entry s = (
  subscription_name s,
  record { queue = some (queue_name (subscription_queue s)); prefetch = subscription_prefetch s },
)

unfoldable pub subscriptions : Object SubscriptionConfig
unfolding subscription_entry
subscriptions =
    subscription_entry Subscription.discovered_tx_to_process
    ∷ subscription_entry Subscription.tx_processed
    ∷ subscription_entry Subscription.save_token
    ∷ subscription_entry Subscription.save_wallet
    ∷ []

binding_text : Exchange × RoutingKey × Queue → String
binding_text (ex, routing_key, queue) =
    exchange_name ex ++ ("[" ++ (routing_key_name routing_key ++ ("] -> " ++ queue_name queue)))

-- Each queue, then its retry and its dead queue.
all_queues : List Queue → List String
all_queues [] = []
all_queues (q ∷ qs) =
    queue_name q ∷ add_retry_prefix (queue_name q) ∷ add_dead_prefix (queue_name q) ∷ all_queues qs

-- The fold by `publicationsBuilder`.
publications_builder : Object Target → List (Publication × Exchange × RoutingKey) → Object Target
publications_builder pubs [] = pubs
publications_builder pubs ((name, exchange, routing_key) ∷ rest) =
    publications_builder
      (assign (publication_name name)
        (to_exchange (exchange_name exchange) (routing_key_name routing_key)) pubs)
      rest

-- The retry and the dead subscription of each subscription with a queue.
dead_and_retry_subs :
    Object SubscriptionConfig → Object SubscriptionConfig → Object SubscriptionConfig
dead_and_retry_subs subs [] = subs
dead_and_retry_subs subs ((name, config) ∷ rest) =
    dead_and_retry_subs
      (elim config.queue [
        | none ↦ subs
        | some queue ↦
            assign (add_dead_prefix name)
              (record { queue = some (add_dead_prefix queue); prefetch = none })
              (assign (add_retry_prefix name)
                (record { queue = some (add_retry_prefix queue); prefetch = none }) subs)
      ])
      rest

-- The publications to those subscriptions' queues, and straight to the queue of the handler.
direct_pubs : Object Target → Object SubscriptionConfig → Object Target
direct_pubs publications [] = publications
direct_pubs publications ((sub, config) ∷ rest) =
    direct_pubs
      (elim config.queue [
        | none ↦ publications
        | some queue ↦
            let process_queue =
              replace_first (replace_first queue dead_prefix "") retry_prefix "" in
            assign (add_direct_pub_prefix process_queue) (to_queue process_queue)
              (assign sub (to_queue queue) publications)
      ])
      rest

pub record VhostConfig : Type 0 where
  pub uri : String
  pub exchanges : List String
  pub queues : List String
  pub bindings : List String
  pub publications : Object Target
  pub subscriptions : Object SubscriptionConfig

-- The vhost of `createBrokerConnection`, less the timeouts of `getConnections`.
unfoldable pub vhost_config : String → VhostConfig
unfolding subscriptions binding_text all_queues publications_builder dead_and_retry_subs direct_pubs
    assign assign_all replace_first add_retry_prefix add_dead_prefix add_direct_pub_prefix
vhost_config uri =
    let subs = dead_and_retry_subs [] subscriptions in
    record {
      uri = uri;
      exchanges = map exchange_name exchange_list;
      queues = all_queues queue_list;
      bindings = map binding_text bindings_setup;
      publications = direct_pubs (publications_builder [] publications_setup) subs;
      subscriptions = assign_all subscriptions subs;
    }
