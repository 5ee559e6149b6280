-- ===== src/Repository/Queries.antt =====
-- Infrastructure/Repository/WalletRepository.ts, ContractRepository.ts and TokenRepository.ts: the
-- filters that they ask MongoDB with, and what they make of its answers.
pub mod Found
use block_listener.Base.{
  ℕ, String, Bool, true, List, [], ◌∷◌, ◌++◌, map, Option, none, some, ◌≡◌, ◌∙◌, ap, sym, arith,
}
use block_listener.Base.Task.{Thrown, Outcome, returns, throws, Task, pure, or_fail, ◌>>=◌}
use block_listener.Values.{BlockchainId, ContractType, blockchain_text}
use block_listener.Entities.Wallet.{WalletProps, Wallet}
use block_listener.Entities.Token.{TokenProps, ContractProps}
use block_listener.Utils.Address.{checksumed, invalid_address, to_lower_case}

-- A condition of a filter: the field has the value, or one of the values.
pub data Condition : Type 0 where
  has_text : String → String → Condition
  has_flag : String → Bool → Condition
  has_one_of : String → List String → Condition

abbrev pub Filter : Type 0
Filter = List Condition

-- A document, with `_id.toString()`.
pub record Model (V : Type 0) : Type 0 where
  pub props : V
  pub object_id : String

pub record Entity (V : Type 0) : Type 0 where
  pub props : V
  pub id : Option String

-- The operations of a collection, over its documents `M`.
pub record Collection (M V : Type 0) : Type 0 where
  pub find_one : Filter → M → Option (Model V)
  pub find : Filter → M → List (Model V)
  pub count_documents : Filter → M → ℕ
  -- `updateOne(filter, { $set: item }, { upsert: true })`
  pub upsert : Filter → V → M → M

-- `modelToEntityMapper`
abbrev pub entity_of : {V : Type 0} → Model V → Entity V
entity_of m = record { props = m.props; id = some m.object_id }

abbrev pub wallet_of : Model WalletProps → Wallet
wallet_of m = record { props = m.props; id = some m.object_id }

abbrev pub entity_or_null : {V E : Type 0} → (Model V → E) → Option (Model V) → Option E
entity_or_null mapper none = none
entity_or_null mapper (some m) = some (mapper m)

abbrev pub by_address : String → BlockchainId → Filter
by_address address blockchain =
    has_text "address" address ∷ has_text "blockchain" (blockchain_text blockchain) ∷ []

-- `getMatchCriteriaFromEntity`, the same in the three repositories.
abbrev pub match_criteria : BlockchainId → String → Filter
match_criteria blockchain address =
    has_text "blockchain" (blockchain_text blockchain) ∷ has_text "address" address ∷ []

abbrev pub contract_type_text : ContractType → String
contract_type_text ContractType.token_erc20 = "token.erc20"
contract_type_text ContractType.uniswap_router_v2_like = "dex.router.uniswap_router_v2_like"
contract_type_text ContractType.uniswap_factory_v2_like = "dex.router.uniswap_factory_v2_like"
contract_type_text ContractType.uniswap_pair_v2_like = "dex.router.uniswap_pair_v2_like"

module _ {M : Type 0} (get_address : String → Option String) where
  unfoldable pub find_wallet :
      Collection M WalletProps → String → BlockchainId → Task M (Option Wallet)
  find_wallet c address blockchain = do
    checked ← or_fail invalid_address (checksumed get_address (some address))
    (λ m. returns (entity_or_null wallet_of (c.find_one (by_address checked blockchain) m)) m)

  unfoldable pub find_contract :
      Collection M ContractProps → String → BlockchainId → Task M (Option (Entity ContractProps))
  find_contract c address blockchain = do
    checked ← or_fail invalid_address (checksumed get_address (some address))
    (λ m. returns (entity_or_null entity_of (c.find_one (by_address checked blockchain) m)) m)

module _ {M : Type 0} where
  -- `updateOne` of `MongoBaseRepository.save`, for a wallet.
  unfoldable pub save_wallet : Collection M WalletProps → Wallet → Task M (Unit {0})
  save_wallet c wallet m =
      returns tt
        (c.upsert (match_criteria wallet.props.blockchain wallet.props.address) wallet.props m)

  unfoldable pub find_contracts_by :
      Collection M ContractProps → Filter → Task M (List (Entity ContractProps))
  find_contracts_by c filters m = returns (map entity_of (c.find filters m)) m

  unfoldable pub count_dex_pairs : Collection M ContractProps → String → BlockchainId → Task M ℕ
  count_dex_pairs c dex blockchain m =
      returns
        (c.count_documents
          (has_text "data.dex" dex
            ∷ has_text "type" (contract_type_text ContractType.uniswap_pair_v2_like)
            ∷ has_text "blockchain" (blockchain_text blockchain)
            ∷ [])
          m)
        m

  unfoldable pub find_tokens_by_blockchain_address :
      Collection M TokenProps → BlockchainId → List String → Task M (List (Entity TokenProps))
  find_tokens_by_blockchain_address c blockchain addresses m =
      returns
        (map entity_of (
          c.find
            (has_text "blockchain" (blockchain_text blockchain)
              ∷ has_one_of "address" addresses
              ∷ [])
            m))
        m

  unfoldable pub find_pair_base_tokens_where :
      Collection M TokenProps → Filter → Task M (List (Entity TokenProps))
  find_pair_base_tokens_where c filters m =
      returns (map entity_of (c.find (filters ++ has_flag "useAsBaseForPairDiscovery" true ∷ []) m))
        m
