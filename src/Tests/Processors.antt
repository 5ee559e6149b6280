-- ===== src/Tests/Processors.antt =====
-- Runs of the chain of processors, of native transfers and of Uniswap V3 swaps.
use block_listener.Base.{ℕ, ◌+◌, String, ◌≡◌, refl, true, false, [], none, some, string_eq}
use block_listener.Base.Task.{returns, throws, Task}
use block_listener.Values.{BlockchainId, TxType}
use block_listener.Entities.Tx.{TxProps, TxSchemas, no_data, eth_transfer_data, not_supported}
use block_listener.TxProcessor.{Processing, process_native_transfer, process_uniswap_v3_swap}

abbrev some_tx : TxProps
some_tx = record {
  blockchain = BlockchainId.polygon;
  hash = "0x1";
  type = TxType.unknown;
  raw = record {
    hash = "0x1";
    block_height = 7;
    timestamp = 1_650_000_123_456;
    input = "0x";
    to = "0xb";
    from = "0xa";
    value = "5";
    logs = [];
    smart_contract_call = none;
  };
  content = no_data;
}

abbrev swap_tx : TxProps
swap_tx = record some_tx {
  raw = record (some_tx.raw) {
    smart_contract_call = some (record { method = "exactInput"; signature = ""; args = [] });
  };
}

abbrev schemas : TxSchemas
schemas = record { dex_swap_value = λ d. d; eth_transfer_value = λ d. d; tx_value = λ tx. some tx }

abbrev processing : TxProps → Processing ℕ
processing tx = record { db = 0; tx = tx }

abbrev priced : BlockchainId → String → ℕ → Task ℕ (String × ℕ)
priced b value time d = returns ("15", 1_649_999_700_000) (d + 1)

abbrev transfer : TxProps
transfer = record some_tx {
  type = TxType.eth_transfer;
  content = eth_transfer_data (record { from = "0xa"; to = "0xb"; value = "5"; usd_value = "15" });
  raw = record (some_tx.raw) { timestamp = 1_649_999_700_000 };
}

native_processed :
    process_native_transfer schemas (λ v. v) priced (processing some_tx)
    ≡ returns true (record { db = 1; tx = transfer })
unfolding process_native_transfer
native_processed = refl

uniswap_passes :
    process_uniswap_v3_swap schemas (processing some_tx) ≡ returns false (processing some_tx)
unfolding process_uniswap_v3_swap
uniswap_passes = refl

abbrev offline : BlockchainId → String → ℕ → Task ℕ (String × ℕ)
offline b value time d = throws not_supported (d + 1)

native_throws :
    process_native_transfer schemas (λ v. v) offline (processing some_tx)
    ≡ throws not_supported (record { db = 1; tx = some_tx })
unfolding process_native_transfer
native_throws = refl
