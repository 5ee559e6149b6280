-- ===== src/Cache/Covalent.antt =====
-- App/Services/BlockchainService/CovalentApi.ts, over the HTTP client and the bottleneck.
use Prim.Native.String.{◌++◌}
use block_listener.Base.{ℕ, ◌*◌, String, true, List, [], map, Option, none, some, ltb, ◌≡◌, arith}
use block_listener.Base.Task.{returns, throws, Task, pure, ◌>>=◌}
use block_listener.Values.{BlockchainId, blockchain_text, chain_id}
use block_listener.Cache.{ICache}
use block_listener.Cache.Expiry.{Keeps}

pub record TxMetadata : Type 0 where
  pub hash : String
  pub block_height : String

abbrev pub one_day_in_sec : ℕ
one_day_in_sec = 60 * 60

unfoldable pub covalent_cache_key : BlockchainId → String → String
covalent_cache_key blockchain address =
    "covalent.get_wallet_txs." ++ (blockchain_text blockchain ++ ("." ++ address))

-- `get_items` is the `data.items` of the answer at an endpoint, `none` if it has none: hashes and
-- heights.
module _ {D : Type 0} (cache : ICache D (List TxMetadata)) (number_text : ℕ → String)
    (get_items : String → Task D (Option (List (String × ℕ)))) where
  abbrev pub tx_metadata : String × ℕ → TxMetadata
  tx_metadata (tx_hash, height) = record { hash = tx_hash; block_height = number_text height }

  abbrev pub endpoint : BlockchainId → String → String
  endpoint blockchain address =
      "/" ++ (number_text (chain_id blockchain) ++ ("/address/" ++ (address ++ "/transactions_v2")))

  -- `cache.set(…).then(noop).catch(noop)`
  abbrev pub keep_txs : String → List TxMetadata → Task D (List TxMetadata)
  keep_txs cache_key tx_metadatas s =
      elim (cache.set cache_key tx_metadatas (some one_day_in_sec) s) [
        | returns _ t ↦ returns tx_metadatas t
        | throws _ t ↦ returns tx_metadatas t
      ]

  abbrev pub keep_answer : String → Option (List (String × ℕ)) → Task D (List TxMetadata)
  keep_answer cache_key none = pure []
  keep_answer cache_key (some items) = keep_txs cache_key (map tx_metadata items)

  abbrev pub cached_or_asked :
      BlockchainId → String → Option (List TxMetadata) → Task D (List TxMetadata)
  unfolding covalent_cache_key
  cached_or_asked blockchain address (some cached_value) = pure cached_value
  cached_or_asked blockchain address none =
      get_items (endpoint blockchain address)
      >>= keep_answer (covalent_cache_key blockchain address)

  unfoldable pub get_wallet_txs_with_metadata : BlockchainId → String → Task D (List TxMetadata)
  unfolding cached_or_asked
  get_wallet_txs_with_metadata blockchain address =
      cache.get (covalent_cache_key blockchain address) >>= cached_or_asked blockchain address

  -- What the API answered with is given again for an hour without asking it, if the cache takes it.
  pub get_wallet_txs_with_metadata-again :
      (after : ℕ → D → D) (seconds : Option ℕ → ℕ) (Storable : List TxMetadata → Type 0)
      → Keeps cache after seconds Storable
      → (blockchain : BlockchainId) (address : String) (items : List (String × ℕ)) (s t u v : D)
      → Storable (map tx_metadata items)
      → cache.get (covalent_cache_key blockchain address) s ≡ returns none t
      → get_items (endpoint blockchain address) t ≡ returns (some items) u
      → cache.set
          (covalent_cache_key blockchain address)
          (map tx_metadata items)
          (some one_day_in_sec)
          u
        ≡ returns true v
      → (elapsed : ℕ) → ltb elapsed (seconds (some 3600)) ≡ true
      → (get_wallet_txs_with_metadata blockchain address s ≡ returns (map tx_metadata items) v)
        × (get_wallet_txs_with_metadata blockchain address (after elapsed v)
            ≡ returns (map tx_metadata items) (after elapsed v))
  unfolding get_wallet_txs_with_metadata cached_or_asked
  get_wallet_txs_with_metadata-again after seconds Storable keeps blockchain address items s t u v
        storable miss answered taken elapsed young =
      let k = covalent_cache_key blockchain address in
      let hit = keeps k (map tx_metadata items) (some one_day_in_sec) elapsed u v storable taken in
      (ground (arith, miss, answered, taken), ground (arith, hit, young))
