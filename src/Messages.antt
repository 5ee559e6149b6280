-- ===== src/Messages.antt =====
-- App/PubSub/Messages: the payloads of the published messages and what they are published under; and
-- the ethers values that they carry.
use block_listener.Base.{ℕ, String, Bool, List, Option, none, some}
use block_listener.Values.{BlockchainId, WalletType, WalletTagName}
use block_listener.Entities.Wallet.{NewRelation}
use block_listener.Entities.Tx.{TxProps}
use block_listener.Rabbitmq.Names.{Publication}

-- What the program reads of ethers' `TransactionResponse`, `TransactionReceipt` and `Block`.
pub record TxResponse : Type 0 where
  pub hash : String
  pub input : String
  pub to : Option String
  pub from : String
  pub value : String

pub record EthersLog : Type 0 where
  pub address : String
  pub topics : List String
  pub input : String

pub record TxReceipt : Type 0 where
  pub transaction_hash : String
  pub block_number : ℕ
  pub status : Option ℕ
  pub logs : List EthersLog

pub record EthersBlock : Type 0 where
  pub number : ℕ
  pub timestamp : ℕ
  pub transactions : List String

pub record TxDiscoveredPayload : Type 0 where
  pub blockchain : BlockchainId
  pub hash : String
  pub save_unknown : Option Bool
  pub save_destination_address : Option Bool
  pub tx_res : Option TxResponse
  pub tx_receipt : Option TxReceipt
  pub block : Option EthersBlock

pub record WalletDiscoveredPayload : Type 0 where
  pub blockchain : BlockchainId
  pub alias : Option String
  pub address : String
  pub type : Option WalletType
  pub tags : Option (List WalletTagName)
  pub relations : Option (List NewRelation)

pub data Message : Type 0 where
  tx_discovered : TxDiscoveredPayload → Message
  tx_processed : BlockchainId → TxProps → Message
  tx_saved : TxProps → Message
  wallet_discovered : WalletDiscoveredPayload → Message
  wallet_saved : BlockchainId → String → Message
  wallet_updated : BlockchainId → String → Message
  token_discovered : BlockchainId → String → Message

abbrev pub message_publication : Message → Publication
message_publication (tx_discovered p) = Publication.tx_discovered
message_publication (tx_processed b p) = Publication.tx_processed
message_publication (tx_saved p) = Publication.tx_saved
message_publication (wallet_discovered p) = Publication.wallet_discovered
message_publication (wallet_saved b a) = Publication.wallet_saved
message_publication (wallet_updated b a) = Publication.wallet_updated
message_publication (token_discovered b a) = Publication.token_discovered

-- The `maxRetries` that the class of a message is constructed with.
abbrev pub message_max_retries : Message → Option ℕ
message_max_retries (tx_discovered p) = some 30
message_max_retries (tx_processed b p) = some 30
message_max_retries (tx_saved p) = some 30
message_max_retries (wallet_discovered p) = none
message_max_retries (wallet_saved b a) = none
message_max_retries (wallet_updated b a) = none
message_max_retries (token_discovered b a) = none
