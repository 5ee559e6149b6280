-- ===== src/Repository/Stale.antt =====
-- CachedMongoBaseRepository.ts: `save` refreshes the entry under the key of all the saved
-- properties, and `findOne` reads the entry under the key of the id.
use block_listener.Base.{◌≡◌, ◌≢◌, string_eq, eq_iff, some, arith}
use block_listener.Base.Task.{returns, state_of}
use block_listener.Repository.{Stores, Backend, cache_key, find_one, save}
use block_listener.Repository.Reads.{Keeps}

module _ {M C I V : Type 0} (b : Backend M C I V) (keeps : Keeps b) where
  -- A save whose properties do not have the key of an id leaves what is cached for that id: as long
  -- as the cache keeps it, `findOne` gives the old value, whatever the collection has now.
  pub find_one-save_stale :
      (id : I) (old item : V) (s : Stores M C)
      → b.cache_get (cache_key b (b.id_values id)) s.cache ≡ some old
      → (let saved = b.with_id item (b.find_by_entity item (b.upsert item s.collection)) in
          cache_key b (b.props_values saved) ≢ cache_key b (b.id_values id))
      → let t = state_of (save b item s) in
        (t.collection ≡ b.upsert item s.collection) × (find_one b id t ≡ returns (some old) t)
  unfolding find_one save
  find_one-save_stale id old item s cached other =
      let saved = b.with_id item (b.find_by_entity item (b.upsert item s.collection)) in
      ground (
        arith,
        keeps (cache_key b (b.props_values saved)) (cache_key b (b.id_values id)) saved s.cache,
        eq_iff (cache_key b (b.props_values saved)) (cache_key b (b.id_values id)),
      )

  -- A save under the key of an id is seen, as it reads after JSON, by the next `findOne` of that id.
  pub find_one-save_fresh :
      (id : I) (item : V) (s : Stores M C)
      → (let saved = b.with_id item (b.find_by_entity item (b.upsert item s.collection)) in
          cache_key b (b.props_values saved) ≡ cache_key b (b.id_values id))
      → let t = state_of (save b item s) in
        find_one b id t
        ≡ returns
            (some (b.as_read (b.with_id item (b.find_by_entity item (b.upsert item s.collection)))))
            t
  unfolding find_one save
  find_one-save_fresh id item s same =
      let saved = b.with_id item (b.find_by_entity item (b.upsert item s.collection)) in
      ground (
        arith,
        keeps (cache_key b (b.props_values saved)) (cache_key b (b.id_values id)) saved s.cache,
        eq_iff (cache_key b (b.props_values saved)) (cache_key b (b.id_values id)),
      )
