-- ===== src/UseCases/SaveTxOfInterest.antt =====
-- App/UseCases/SaveTxOfInterest.ts
pub mod Decision
pub mod Swaps
use block_listener.Base.{
  ℕ, String, Bool, true, false, not, List, [], ◌∷◌, Option, none, some, if◌then◌else◌,
}
use block_listener.Base.Task.{
  Thrown, Outcome, returns, throws, Task, pure, throw, ◌>>=◌, ◌>>◌, promise_all, or_fail,
}
use block_listener.Values.{
  BlockchainId, TxType, WalletType, WalletTagName, AddressRelationType, ContractType,
}
use block_listener.Entities.Wallet.{Wallet, NewRelation}
use block_listener.Entities.Tx.{
  TxProps, TxData, TxSchemas, EthTransferData, DexSwapData, no_data, eth_transfer_data,
  dex_swap_data, create, validation_error,
}
use block_listener.Entities.Token.{ContractProps}
use block_listener.Messages.{
  Message, WalletDiscoveredPayload, tx_saved, wallet_discovered, token_discovered,
}
use block_listener.Utils.Address.{is_same_address, invalid_address}
use block_listener.App.{App, Effect, stored_tx, stored_contract, on_db, store, publish}

pub record Deps (D : Type 0) : Type 0 where
  pub schemas : TxSchemas
  pub get_address : String → Option String
  -- `BN(value).lt(limit)`, of a value that may be `undefined`
  pub less_than : Option String → String → Bool
  pub min_dex_swap_value_in_usd : BlockchainId → String
  pub min_native_transfer_value_in_usd : BlockchainId → String
  pub find_wallet : BlockchainId → String → Task D (Option Wallet)
  pub find_contract : String → BlockchainId → Task D (Option ContractProps)
  pub save_tx : TxProps → Task D (Unit {0})
  pub save_contract : ContractProps → Task D (Unit {0})
  -- `Contract.create`, `none` where it throws
  pub create_contract : ContractProps → Option ContractProps
  pub publish_error : Message → D → Option Thrown
  pub now : ℕ

-- A property of `undefined`.
abbrev pub no_content : Thrown
no_content = record {
  is_direct_to_dead = false;
  name = "TypeError";
  message = "Cannot read properties of undefined";
  stack = "";
}

-- `tx.data` as the data of a swap and of a transfer. The type of a transaction and its data are set
-- together, so other data is as none.
abbrev pub swap_of : TxData → Option DexSwapData
swap_of (dex_swap_data d) = some d
swap_of _ = none

abbrev pub transfer_of : TxData → Option EthTransferData
transfer_of (eth_transfer_data d) = some d
transfer_of _ = none

abbrev pub relation : String → AddressRelationType → String → NewRelation
relation address type tx_hash = record {
  address = address;
  type = type;
  created_at = none;
  metadata = some (some tx_hash);
}

abbrev pub discovered :
    BlockchainId → String → WalletTagName → List NewRelation → WalletDiscoveredPayload
discovered blockchain address tag relations = record {
  blockchain = blockchain;
  alias = none;
  address = address;
  type = some WalletType.unknown_wallet;
  tags = some (tag ∷ []);
  relations = some relations;
}

module _ {D : Type 0} (deps : Deps D) where
  open deps use {
    get_address, less_than, find_wallet, find_contract, save_tx, save_contract, create_contract,
    publish_error,
  }

  unfoldable pub publish_swap_tokens : TxProps → DexSwapData → Task (App D) (Unit {0})
  publish_swap_tokens tx d = do
    promise_all (λ address. publish publish_error (token_discovered tx.blockchain address))
        (d.input.token ∷ d.output.token ∷ [])
    pure tt

  abbrev pub new_router : TxProps → ContractProps
  new_router tx = record {
    address = tx.raw.to;
    blockchain = tx.blockchain;
    alias = some "unknown-dex.v2.router";
    created_at = deps.now;
    type = ContractType.uniswap_router_v2_like;
  }

  unfoldable pub save_router_if_not_exist : TxProps → Task (App D) ContractProps
  save_router_if_not_exist tx = do
    router ← on_db (find_contract tx.raw.to tx.blockchain)
    elim router [
      | some r ↦ pure r
      | none ↦ do
        r ← or_fail validation_error (create_contract (new_router tx))
        store (stored_contract r) (save_contract r)
        pure r
    ]

  -- The flag is the value of `isSameAddress(tx.from, tx.data.to)`.
  abbrev pub sender_wallet : TxProps → DexSwapData → Bool → Message
  sender_wallet tx d swap_out_address_is_not_sender = wallet_discovered (
      discovered tx.blockchain tx.raw.from WalletTagName.found_iterating_blocks (
        if swap_out_address_is_not_sender
        then relation d.to AddressRelationType.transfer_sent tx.hash ∷ []
        else []))

  abbrev pub receiver_wallet : TxProps → DexSwapData → Message
  receiver_wallet tx d = wallet_discovered (
      discovered tx.blockchain d.to WalletTagName.found_by_incoming_transfer
        (relation d.from AddressRelationType.transfer_received tx.hash ∷ []))

  abbrev pub when : Bool → Task (App D) (Unit {0}) → Task (App D) (Unit {0})
  when true task = task
  when false task = pure tt

  unfoldable pub save_dex_swap_tx_handler : TxProps → DexSwapData → Task (App D) Bool
  unfolding publish_swap_tokens save_router_if_not_exist
  save_dex_swap_tx_handler tx d =
      if less_than (some d.usd_value) (deps.min_dex_swap_value_in_usd tx.blockchain)
      then pure false
      else do
        publish_swap_tokens tx d
        swap_out_address_is_not_sender ←
            or_fail invalid_address (is_same_address get_address (some tx.raw.from) (some d.to))
        publish publish_error (sender_wallet tx d swap_out_address_is_not_sender)
        save_router_if_not_exist tx
        when swap_out_address_is_not_sender (publish publish_error (receiver_wallet tx d))
        store (stored_tx tx) (save_tx tx)
        pure true

  unfoldable pub save_eth_transfer_tx_handler : TxProps → EthTransferData → Task (App D) Bool
  save_eth_transfer_tx_handler tx d =
      if less_than (some d.usd_value) (deps.min_native_transfer_value_in_usd tx.blockchain)
      then pure false
      else do
        publish publish_error (
            wallet_discovered (
              discovered tx.blockchain d.from WalletTagName.found_iterating_blocks
                (relation d.to AddressRelationType.transfer_sent tx.hash ∷ [])))
        store (stored_tx tx) (save_tx tx)
        pure true

  abbrev pub with_swap : TxProps → Option DexSwapData → Task (App D) Bool
  with_swap tx none = throw no_content
  with_swap tx (some d) = save_dex_swap_tx_handler tx d

  abbrev pub with_transfer : TxProps → Option EthTransferData → Task (App D) Bool
  with_transfer tx none = throw no_content
  with_transfer tx (some d) = save_eth_transfer_tx_handler tx d

  abbrev pub by_type : TxProps → TxType → Task (App D) Bool
  by_type tx TxType.dex_swap = with_swap tx (swap_of tx.content)
  by_type tx TxType.eth_transfer = with_transfer tx (transfer_of tx.content)
  by_type tx TxType.unknown = pure false
  by_type tx TxType.dex_swap_uniswap_v3 = pure false

  abbrev pub by_wallet : TxProps → Option Wallet → Task (App D) Bool
  by_wallet tx (some wallet) = store (stored_tx tx) (save_tx tx) >> pure true
  by_wallet tx none = by_type tx tx.type

  unfoldable pub save_tx_if_applies : TxProps → Task (App D) Bool
  unfolding save_dex_swap_tx_handler save_eth_transfer_tx_handler
  save_tx_if_applies tx = do
    wallet_of_tx_in_db ← on_db (find_wallet tx.blockchain tx.raw.from)
    by_wallet tx wallet_of_tx_in_db

  unfoldable pub execute : TxProps → Task (App D) (Unit {0})
  unfolding save_tx_if_applies create
  execute msg_tx = do
    tx ← create deps.schemas msg_tx
    saved ← save_tx_if_applies tx
    when saved (publish publish_error (tx_saved tx))
