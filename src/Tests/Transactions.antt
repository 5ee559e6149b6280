-- ===== src/Tests/Transactions.antt =====
-- Runs of the use case that saves transactions of interest.
use block_listener.Base.{ℕ, ◌≡◌, refl, true, false, [], ◌∷◌, Option, none, some, ◌===◌, string_eq}
use block_listener.Base.Task.{returns}
use block_listener.Values.{
  BlockchainId, WalletType, WalletTagName, AddressRelationType, TxType, ContractType,
}
use block_listener.Entities.Wallet.{Wallet}
use block_listener.Entities.Tx.{TxProps, EthTransferData, DexSwapData, no_data, eth_transfer_data}
use block_listener.Entities.Token.{ContractProps}
use block_listener.Messages.{tx_saved, wallet_discovered, token_discovered}
use block_listener.App.{App, sent, stored_tx}
use block_listener.Utils.Address.{checksumed, is_same_address, to_lower_case}
use block_listener.UseCases.SaveTxOfInterest.{
  Deps, discovered, relation, sender_wallet, receiver_wallet, save_dex_swap_tx_handler, execute,
}
use block_listener.UseCases.SaveTxOfInterest.Decision.{execute_eth_transfer}
use block_listener.UseCases.SaveTxOfInterest.Swaps.{save_dex_swap_tx_handler_lem}

abbrev transfer : EthTransferData
transfer = record { from = "0xa"; to = "0xb"; value = "5"; usd_value = "15" }

abbrev tx : TxProps
tx = record {
  blockchain = BlockchainId.polygon;
  hash = "0x1";
  type = TxType.eth_transfer;
  raw = record {
    hash = "0x1";
    block_height = 7;
    timestamp = 1;
    input = "0x";
    to = "0xb";
    from = "0xa";
    value = "5";
    logs = [];
    smart_contract_call = none;
  };
  content = eth_transfer_data transfer;
}

abbrev unknown_tx : TxProps
unknown_tx = record tx { type = TxType.unknown; content = no_data }

abbrev sender : Wallet
sender = record {
  props = record {
    blockchain = BlockchainId.polygon;
    address = "0xa";
    alias = none;
    type = WalletType.unknown_wallet;
    tags = [];
    relations = [];
    created_at = 1;
  };
  id = none;
}

abbrev router : ContractProps
router = record {
  blockchain = BlockchainId.polygon;
  address = "0xb";
  alias = none;
  type = ContractType.uniswap_router_v2_like;
  created_at = 1;
}

-- A database of one wallet or none that counts its transactions. Only the value "1" is less than
-- another.
abbrev deps : Deps (Option Wallet × ℕ)
deps = record {
  schemas = record { dex_swap_value = λ d. d; eth_transfer_value = λ d. d; tx_value = λ t. some t };
  get_address = λ a. some a;
  less_than = λ value limit. elim value [ none ↦ false | some v ↦ v === "1" ];
  min_dex_swap_value_in_usd = λ b. "10";
  min_native_transfer_value_in_usd = λ b. "10";
  find_wallet = λ b a d. returns d.0 d;
  find_contract = λ a b d. returns (some router) d;
  save_tx = λ t d. returns tt (d.0, 1);
  save_contract = λ c d. returns tt d;
  create_contract = λ c. some c;
  publish_error = λ m d. none;
  now = 9;
}

abbrev known : App (Option Wallet × ℕ)
known = record { db = (some sender, 0); effects = [] }

abbrev unknown : App (Option Wallet × ℕ)
unknown = record { db = (none, 0); effects = [] }

execute_eth_transfer_example :
    execute deps tx unknown
    ≡ returns tt (record {
      db = (none, 1);
      effects =
          sent (tx_saved tx)
          ∷ stored_tx tx
          ∷ sent (
              wallet_discovered (
                discovered BlockchainId.polygon "0xa" WalletTagName.found_iterating_blocks
                  (relation "0xb" AddressRelationType.transfer_sent "0x1" ∷ [])))
          ∷ [];
    })
execute_eth_transfer_example =
    execute_eth_transfer deps tx tx unknown (none, 0) refl (λ m s. refl) transfer (none, 1) refl
      refl refl refl

abbrev swap : DexSwapData
swap = record {
  native_value = "3";
  usd_value = "15";
  from = "0xa";
  to = "0xA";
  calculated_native_value = none;
  calculated_usd_value = none;
  input = record { token = "0xc"; symbol = "C"; amount = "3" };
  output = record { token = "0xd"; symbol = "D"; amount = "4" };
}

-- The swap pays to its sender, and the sender is announced twice.
save_dex_swap_tx_handler_lem_example :
    save_dex_swap_tx_handler deps tx swap unknown
    ≡ returns true (record {
      db = (none, 1);
      effects =
          stored_tx tx
          ∷ sent (receiver_wallet deps tx swap)
          ∷ sent (sender_wallet deps tx swap true)
          ∷ sent (token_discovered BlockchainId.polygon "0xd")
          ∷ sent (token_discovered BlockchainId.polygon "0xc")
          ∷ [];
    })
unfolding is_same_address checksumed to_lower_case
save_dex_swap_tx_handler_lem_example =
    save_dex_swap_tx_handler_lem deps tx swap unknown (none, 0) (none, 1) router (λ m s. refl) true
      refl refl refl refl
