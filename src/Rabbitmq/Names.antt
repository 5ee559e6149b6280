-- ===== src/Rabbitmq/Names.antt =====
-- Infrastructure/Broker/Rabbitmq/Enums.ts and Infrastructure/Broker/Subscription.ts.
use block_listener.Base.{String, List, [], ◌∷◌}

pub data Exchange : Type 0 where
  block wallet contract token tx : Exchange

pub data Queue : Type 0 where
  find_direct_tx find_internal_tx save_wallet save_tx_of_interest process_tx save_token : Queue

pub data RoutingKey : Type 0 where
  block_received wallet_discovered token_discovered tx_discovered tx_processed tx_saved : RoutingKey
  wallet_saved wallet_updated : RoutingKey

pub data Publication : Type 0 where
  block_received tx_discovered tx_processed tx_saved wallet_discovered wallet_saved : Publication
  wallet_updated token_discovered : Publication

pub data Subscription : Type 0 where
  discovered_tx_to_process tx_processed save_token save_wallet : Subscription

abbrev pub exchange_name : Exchange → String
exchange_name Exchange.block = "block"
exchange_name Exchange.wallet = "wallet"
exchange_name Exchange.contract = "contract"
exchange_name Exchange.token = "token"
exchange_name Exchange.tx = "tx"

abbrev pub exchange_list : List Exchange
exchange_list =
    Exchange.block ∷ Exchange.wallet ∷ Exchange.contract ∷ Exchange.token ∷ Exchange.tx ∷ []

abbrev pub queue_name : Queue → String
queue_name Queue.find_direct_tx = "find_direct_tx"
queue_name Queue.find_internal_tx = "find_internal_tx"
queue_name Queue.save_wallet = "save_wallet"
queue_name Queue.save_tx_of_interest = "save_tx_of_interest"
queue_name Queue.process_tx = "process_tx"
queue_name Queue.save_token = "save_token"

abbrev pub queue_list : List Queue
queue_list =
    Queue.find_direct_tx ∷ Queue.find_internal_tx ∷ Queue.save_wallet ∷ Queue.save_tx_of_interest
    ∷ Queue.process_tx ∷ Queue.save_token ∷ []

abbrev pub routing_key_name : RoutingKey → String
routing_key_name RoutingKey.block_received = "block.evt.received"
routing_key_name RoutingKey.wallet_discovered = "wallet.evt.wallet_discovered"
routing_key_name RoutingKey.token_discovered = "token.evt.discovered"
routing_key_name RoutingKey.tx_discovered = "tx.evt.discovered"
routing_key_name RoutingKey.tx_processed = "tx.evt.processed"
routing_key_name RoutingKey.tx_saved = "tx.evt.saved"
routing_key_name RoutingKey.wallet_saved = "wallet.evt.wallet_saved"
routing_key_name RoutingKey.wallet_updated = "wallet.evt.wallet_updated"

abbrev pub publication_name : Publication → String
publication_name Publication.block_received = "block_received"
publication_name Publication.tx_discovered = "tx_dicovered"
publication_name Publication.tx_processed = "tx_processed"
publication_name Publication.tx_saved = "tx_saved"
publication_name Publication.wallet_discovered = "wallet_discovered"
publication_name Publication.wallet_saved = "wallet_saved"
publication_name Publication.wallet_updated = "wallet_updated"
publication_name Publication.token_discovered = "token_discovered"

abbrev pub subscription_name : Subscription → String
subscription_name Subscription.discovered_tx_to_process = "discovered_tx_to_process"
subscription_name Subscription.tx_processed = "tx_processed"
subscription_name Subscription.save_token = "save_token"
subscription_name Subscription.save_wallet = "save_wallet"
