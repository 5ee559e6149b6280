-- ===== src/Values/Checked.antt =====
-- App/Values/Blockchain.ts: the constructor's test of an id that is any text, and `equals`.
use block_listener.Base.{
  String, Bool, ◌===◌, string_eq, find, Option, some, ◌≡◌, refl, arith, eq_iff,
}
use block_listener.Values.{BlockchainId, blockchain_eq, blockchain_id_list, blockchain_text}

-- `none` where the constructor throws.
unfoldable pub new_blockchain : String → Option BlockchainId
new_blockchain id = find (λ bid. blockchain_text bid === id) blockchain_id_list

abbrev pub equals : BlockchainId → BlockchainId → Bool
equals a b = a === b

pub new_blockchain-blockchain_text :
    (b : BlockchainId) → new_blockchain (blockchain_text b) ≡ some b
unfolding new_blockchain
new_blockchain-blockchain_text BlockchainId.ethereum = refl
new_blockchain-blockchain_text BlockchainId.polygon = refl
new_blockchain-blockchain_text BlockchainId.binance = refl

-- The constructor takes no text but that of the blockchain.
pub new_blockchain-text :
    (id : String) (b : BlockchainId) → new_blockchain id ≡ some b → blockchain_text b ≡ id
unfolding new_blockchain
new_blockchain-text id b h =
    ground (arith, h, eq_iff "ethereum" id, eq_iff "polygon" id, eq_iff "bsc" id)
