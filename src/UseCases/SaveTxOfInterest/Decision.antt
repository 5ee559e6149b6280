-- ===== src/UseCases/SaveTxOfInterest/Decision.antt =====
-- SaveTxOfInterest.ts: which transactions are stored and announced.
use block_listener.Base.{◌≡◌, ◌≢◌, [], ◌∷◌, none, some, if◌then◌else◌, arith}
use block_listener.Base.Task.{returns}
use block_listener.Values.{TxType, WalletTagName, AddressRelationType}
use block_listener.Entities.Wallet.{Wallet}
use block_listener.Entities.Tx.{TxProps, EthTransferData, eth_transfer_data}
use block_listener.Messages.{Message, tx_saved, wallet_discovered}
use block_listener.App.{App, sent, stored_tx}
use block_listener.UseCases.SaveTxOfInterest.{Deps, discovered, relation, execute}

module _ {D : Type 0} (deps : Deps D) (msg_tx tx : TxProps) (w : App D) (d : D)
    (valid : deps.schemas.tx_value msg_tx ≡ some tx)
    (accepts : (m : Message) (s : D) → deps.publish_error m s ≡ none) where
  -- A transaction from a wallet in the database is stored and then announced, whatever its type and
  -- its value.
  pub execute_known_wallet :
      (wallet : Wallet) (d' : D)
      → deps.find_wallet tx.blockchain tx.raw.from w.db ≡ returns (some wallet) d
      → deps.save_tx tx d ≡ returns tt d'
      → execute deps msg_tx w
        ≡ returns tt (record { db = d'; effects = sent (tx_saved tx) ∷ stored_tx tx ∷ w.effects })
  unfolding execute
  execute_known_wallet wallet d' found saved = ground (arith, accepts (tx_saved tx) d')

  -- A transaction of another type from a wallet that is not in the database is dropped.
  pub execute_other_type :
      deps.find_wallet tx.blockchain tx.raw.from w.db ≡ returns none d
      → tx.type ≢ TxType.dex_swap
      → tx.type ≢ TxType.eth_transfer
      → execute deps msg_tx w ≡ returns tt (record w { db = d })
  unfolding execute
  execute_other_type missing no_swap no_transfer = ground arith

  -- A transfer from a wallet that is not in the database is dropped if its value is under the
  -- threshold. Else its sender is announced with a relation to the receiver, and the transfer is
  -- stored and announced.
  pub execute_eth_transfer :
      (t : EthTransferData) (d' : D)
      → deps.find_wallet tx.blockchain tx.raw.from w.db ≡ returns none d
      → tx.type ≡ TxType.eth_transfer
      → tx.content ≡ eth_transfer_data t
      → deps.save_tx tx d ≡ returns tt d'
      → execute deps msg_tx w ≡ (
          if deps.less_than (some t.usd_value) (deps.min_native_transfer_value_in_usd tx.blockchain)
          then returns tt (record w { db = d })
          else returns tt (record {
            db = d';
            effects =
                sent (tx_saved tx)
                ∷ stored_tx tx
                ∷ sent (
                    wallet_discovered (
                      discovered tx.blockchain t.from WalletTagName.found_iterating_blocks
                        (relation t.to AddressRelationType.transfer_sent tx.hash ∷ [])))
                ∷ w.effects;
          }))
  unfolding execute
  execute_eth_transfer t d' missing typed has saved = ground (
    arith,
    accepts (tx_saved tx) d',
    accepts
        (wallet_discovered (
          discovered tx.blockchain t.from WalletTagName.found_iterating_blocks
            (relation t.to AddressRelationType.transfer_sent tx.hash ∷ [])))
        d,
  )
