-- ===== src/Repository.antt =====
-- Infrastructure/Repository/CachedMongoBaseRepository.ts over MongoBaseRepository.ts, as one
-- repository of values `V` found by ids `I`. The collection and the cache are what MongoDB and Redis
-- keep; their operations are parameters.
pub mod Reads
pub mod Stale
pub mod Pages
pub mod SwapTokens
pub mod Blocks
pub mod Queries
use Prim.Native.String.{◌++◌}
use block_listener.Base.{String, List, [], ◌∷◌, Option, none, some}
use block_listener.Base.Task.{Outcome, returns, throws, Task, pure, ◌>>=◌, ◌>>◌}

pub record Stores (M C : Type 0) : Type 0 where
  pub collection : M
  pub cache : C

pub record Backend (M C I V : Type 0) : Type 0 where
  pub collection_name : String
  -- `Object.values(id)` and `Object.values(props)`, as texts
  pub id_values : I → List String
  pub props_values : V → List String
  -- `getCollection().findOne(id)`, by the fields of an id and by those of `getMatchCriteriaFromEntity`
  pub find_by_id : I → M → Option V
  pub find_by_entity : V → M → Option V
  -- `updateOne(filter, { $set: item }, { upsert: true })`
  pub upsert : V → M → M
  -- `{ ...item.toRaw(), _id: _item?._id }`
  pub with_id : V → Option V → V
  -- `JSON.parse(JSON.stringify(value))`: what the cache gives for a value that it was given, with texts
  -- for dates and object ids
  pub as_read : V → V
  pub cache_get : String → C → Option V
  pub cache_set : String → V → C → C

-- `values.join("_")`
abbrev pub join : List String → String
join [] = ""
join (v ∷ []) = v
join (v ∷ u ∷ vs) = v ++ ("_" ++ join (u ∷ vs))

module _ {M C I V : Type 0} (b : Backend M C I V) where
  unfoldable pub cache_key : List String → String
  cache_key values = "repo.cache." ++ (b.collection_name ++ ("." ++ join values))

  -- `MongoBaseRepository.save`
  unfoldable pub save_to_collection : V → Task (Stores M C) V
  save_to_collection item s =
      let m = b.upsert item s.collection in
      returns (b.with_id item (b.find_by_entity item m)) (record s { collection = m })

  abbrev pub set_cache : String → V → Task (Stores M C) (Unit {0})
  set_cache key value s = returns tt (record s { cache = b.cache_set key value s.cache })

  abbrev pub remember : I → Option V → Task (Stores M C) (Option V)
  remember id none = pure none
  remember id (some v) = do set_cache (cache_key (b.id_values id)) v; pure (some v)

  -- `CachedMongoBaseRepository.findOne`
  unfoldable pub find_one : I → Task (Stores M C) (Option V)
  unfolding cache_key
  find_one id s = elim (b.cache_get (cache_key (b.id_values id)) s.cache) [
    | some cached ↦ returns (some cached) s
    | none ↦ remember id (b.find_by_id id s.collection) s
  ]

  -- `CachedMongoBaseRepository.save`
  unfoldable pub save : V → Task (Stores M C) V
  unfolding save_to_collection cache_key
  save item = do
    res ← save_to_collection item
    set_cache (cache_key (b.props_values res)) res
    pure res
