-- ===== src/Values.antt =====
-- App/Values and Config/Blockchains.ts: the enumerations, compared by their position, which stands
-- for their text. `Blockchain` is its id: an id that is none of the three cannot be written.
pub mod Checked
use block_listener.Base.{ℕ, String, ◌≡◌, ◌↔◌, true, nat_beq, Eq, List, [], ◌∷◌, arith}
use Prim.Native.String.{◌++◌}

pub data BlockchainId : Type 0 where
  ethereum polygon binance : BlockchainId

pub data TxType : Type 0 where
  unknown dex_swap dex_swap_uniswap_v3 eth_transfer : TxType

pub data WalletType : Type 0 where
  exchange_wallet unknown_wallet whale : WalletType

pub data WalletTagName : Type 0 where
  found_iterating_blocks found_by_incoming_transfer added_manually found_with_searcher :
      WalletTagName

pub data AddressRelationType : Type 0 where
  transfer_sent transfer_received : AddressRelationType

pub data ContractType : Type 0 where
  token_erc20 uniswap_router_v2_like uniswap_factory_v2_like uniswap_pair_v2_like : ContractType

abbrev pub blockchain_index : BlockchainId → ℕ
blockchain_index BlockchainId.ethereum = 0
blockchain_index BlockchainId.polygon = 1
blockchain_index BlockchainId.binance = 2

abbrev pub tx_type_index : TxType → ℕ
tx_type_index TxType.unknown = 0
tx_type_index TxType.dex_swap = 1
tx_type_index TxType.dex_swap_uniswap_v3 = 2
tx_type_index TxType.eth_transfer = 3

abbrev pub tag_index : WalletTagName → ℕ
tag_index WalletTagName.found_iterating_blocks = 0
tag_index WalletTagName.found_by_incoming_transfer = 1
tag_index WalletTagName.added_manually = 2
tag_index WalletTagName.found_with_searcher = 3

abbrev pub relation_index : AddressRelationType → ℕ
relation_index AddressRelationType.transfer_sent = 0
relation_index AddressRelationType.transfer_received = 1

pub blockchain_beq_iff :
    (a b : BlockchainId) → (nat_beq (blockchain_index a) (blockchain_index b) ≡ true) ↔ (a ≡ b)
blockchain_beq_iff a b = ground arith

pub tag_beq_iff : (a b : WalletTagName) → (nat_beq (tag_index a) (tag_index b) ≡ true) ↔ (a ≡ b)
tag_beq_iff a b = ground arith

pub relation_beq_iff :
    (a b : AddressRelationType) → (nat_beq (relation_index a) (relation_index b) ≡ true) ↔ (a ≡ b)
relation_beq_iff a b = ground arith

instance abbrev pub blockchain_eq : Eq BlockchainId
blockchain_eq = record {
  beq = λ a b. nat_beq (blockchain_index a) (blockchain_index b);
  beq_iff = blockchain_beq_iff;
}

instance abbrev pub tag_eq : Eq WalletTagName
tag_eq = record { beq = λ a b. nat_beq (tag_index a) (tag_index b); beq_iff = tag_beq_iff }

instance abbrev pub relation_eq : Eq AddressRelationType
relation_eq = record {
  beq = λ a b. nat_beq (relation_index a) (relation_index b);
  beq_iff = relation_beq_iff;
}

abbrev pub blockchain_id_list : List BlockchainId
blockchain_id_list = BlockchainId.ethereum ∷ BlockchainId.polygon ∷ BlockchainId.binance ∷ []

abbrev pub blockchain_text : BlockchainId → String
blockchain_text BlockchainId.ethereum = "ethereum"
blockchain_text BlockchainId.polygon = "polygon"
blockchain_text BlockchainId.binance = "bsc"

abbrev pub chain_id : BlockchainId → ℕ
chain_id BlockchainId.ethereum = 1
chain_id BlockchainId.binance = 56
chain_id BlockchainId.polygon = 137

abbrev pub native_token_symbol : BlockchainId → String
native_token_symbol BlockchainId.ethereum = "ETH"
native_token_symbol BlockchainId.binance = "BNB"
native_token_symbol BlockchainId.polygon = "MATIC"

unfoldable pub block_link : BlockchainId → String → String
block_link BlockchainId.ethereum height = "https://etherscan.io/block/" ++ height
block_link BlockchainId.binance height = "https://bscscan.com/block/" ++ height
block_link BlockchainId.polygon height = "https://polygonscan.com//block/" ++ height
