-- ===== src/Repository/Reads.antt =====
-- CachedMongoBaseRepository.ts: a read gives what the collection has while the cache agrees with it.
use block_listener.Base.{
  String, ◌≡◌, refl, ◌===◌, string_eq, eq_iff, if◌then◌else◌, inl, inr, some, none, Option, is_some,
  Bool-cases, sym, ap, ◌∙◌, Option-cases, arith,
}
use block_listener.Base.Task.{returns}
use block_listener.Repository.{Stores, Backend, cache_key, find_one}

-- A cache that keeps what is set until it is set anew, and gives it as it reads after JSON.
abbrev pub Keeps : {M C I V : Type 0} → Backend M C I V → Type 0
Keeps {C = C} {V = V} b =
    (k j : String) (v : V) (c : C)
    → b.cache_get j (b.cache_set k v c) ≡ (if k === j then some (b.as_read v) else b.cache_get j c)

module _ {M C I V : Type 0} (b : Backend M C I V) where
  abbrev pub read_back : Option V → Option V
  read_back none = none
  read_back (some v) = some (b.as_read v)

  -- What is cached for an id is what the collection has for it, after JSON.
  abbrev pub IsCoherent : Stores M C → Type 0
  IsCoherent s =
      (id : I) (v : V)
      → b.cache_get (cache_key b (b.id_values id)) s.cache ≡ some v
      → read_back (b.find_by_id id s.collection) ≡ some v

  -- What `findOne` answers: what the collection has, after JSON if the cache has it.
  abbrev pub answered : I → Stores M C → Option V
  answered id s =
      let found = b.find_by_id id s.collection in
      if is_some (b.cache_get (cache_key b (b.id_values id)) s.cache)
      then read_back found
      else found

  module _ (keeps : Keeps b)
      (separate : (i j : I)
        → cache_key b (b.id_values i) ≡ cache_key b (b.id_values j)
        → (m : M) → b.find_by_id i m ≡ b.find_by_id j m) where
    remembered-IsCoherent :
        (id : I) (v : V) (s : Stores M C)
        → IsCoherent s
        → b.find_by_id id s.collection ≡ some v
        → IsCoherent (record s { cache = b.cache_set (cache_key b (b.id_values id)) v s.cache })
    remembered-IsCoherent id v s ok found j u hit =
        let k = cache_key b (b.id_values id) in
        let l = cache_key b (b.id_values j) in
        elim (Bool-cases (k === l)) [
          | inl same ↦
              let at_j : b.find_by_id j s.collection ≡ some v =
                sym (separate id j ((eq_iff k l).0 same) s.collection) ∙ found in
              ap read_back at_j ∙ ground (arith, keeps k l v s.cache, same, hit)
          | inr other ↦ ok j u (ground (arith, keeps k l v s.cache, other, hit))
        ]

    -- If the cache keeps what it is given, as JSON, and ids with one cache key find the same: while
    -- the cache is coherent, `findOne` gives what the collection has, exactly so if the cache does
    -- not have it and after JSON, with texts for dates and ids, if it does. The cache stays coherent.
    pub find_one-IsCoherent :
        (id : I) (s : Stores M C)
        → IsCoherent s
        → (t : Stores M C) × (find_one b id s ≡ returns (answered id s) t)
          × (t.collection ≡ s.collection)
          × IsCoherent t
    unfolding find_one
    find_one-IsCoherent id s ok =
        elim (Option-cases (b.cache_get (cache_key b (b.id_values id)) s.cache)) [
          | inr (v, hit) ↦ (s, ground (arith, ok id v hit, hit), refl, ok)
          | inl miss ↦ elim (Option-cases (b.find_by_id id s.collection)) [
            | inl absent ↦ (s, ground arith, refl, ok)
            | inr (v, found) ↦ (
              record s { cache = b.cache_set (cache_key b (b.id_values id)) v s.cache },
              ground arith,
              refl,
              remembered-IsCoherent id v s ok found,
            )
          ]
        ]
