-- ===== src/Utils/Flat/Leaves.antt =====
-- App/Utils/Misc.ts: the flattened object has the leaves under their paths.
use block_listener.Base.{
  String, Bool, true, false, subst, [], ◌∷◌, Option, none, some, if◌then◌else◌, ◌===◌, string_eq,
  ◌>>=◌, ◌++◌, ◌≡◌, refl, ap, ◌∙◌, sym, eq_iff, arith,
}
use block_listener.Rabbitmq.Objects.{Object, assign, assign_all, lookup, lookup-assign}
use block_listener.Utils.Flat.{
  Value, plain, nullish, nested, Entries, end, entry, key_under, flatten_entries, flatten_value,
  flatten_object,
}

-- The leaves with their dotted paths, in their order; `none` if a value is `null` or `undefined`.
abbrev mutual
  pub leaves : {V : Type 0} → Entries V → String → Option (Object V)
  leaves end prefix = some []
  leaves (entry key value entries) prefix = leaves_of value (key_under prefix key) >>= λ first.
      leaves entries prefix >>= λ rest. some (first ++ rest)

  pub leaves_of : {V : Type 0} → Value V → String → Option (Object V)
  leaves_of (plain v) key = some ((key, v) ∷ [])
  leaves_of nullish key = none
  leaves_of (nested entries) key = leaves entries key

module _ {V : Type 0} where
  abbrev or_else : Option V → Option V → Option V
  or_else none d = d
  or_else (some v) d = some v

  -- The last of the leaves with a path, or what there was.
  abbrev pub over : String → Object V → Option V → Option V
  over j [] d = d
  over j ((k, v) ∷ ls) d = over j ls (if k === j then some v else d)

  abbrev pub Unique : Object V → Type 0
  Unique [] = Unit
  Unique ((k, v) ∷ object) = (lookup k object ≡ none) × Unique object

  -- The object has the leaves over what was accumulated, or both have failed.
  abbrev pub Follows : Option (Object V) → Object V → Option (Object V) → Type 0
  Follows none acc none = Unit
  Follows (some ls) acc (some o) = Unique o × ((j : String) → lookup j o ≡ over j ls (lookup j acc))
  Follows none acc (some o) = ⊥
  Follows (some ls) acc none = ⊥

  over-append :
      (j : String) (xs ys : Object V) (d : Option V) → over j (xs ++ ys) d ≡ over j ys (over j xs d)
  over-append j [] ys d = refl
  over-append j ((k, v) ∷ xs) ys d = over-append j xs ys _

  over-or_else :
      (j : String) (ls : Object V) (a d : Option V)
      → or_else a d ≡ a
      → or_else (over j ls a) d ≡ over j ls a
  over-or_else j [] a d h = h
  over-or_else j ((k, v) ∷ ls) a d h = over-or_else j ls _ d (ground (arith, h))

  or_else-same : (d : Option V) → or_else d d ≡ d
  or_else-same none = refl
  or_else-same (some v) = refl

  assign-Unique : (k : String) (v : V) (o : Object V) → Unique o → Unique (assign k v o)
  unfolding assign lookup
  assign-Unique k v [] u = (refl, tt)
  assign-Unique k v ((i, w) ∷ o) (fresh, u) =
      placed (i === k) (assign-Unique k v o u) (λ e. (eq_iff i k).0 e)
        (λ e. ground (arith, eq_iff i k, eq_iff k i, lookup-assign k i v o, fresh))
    where
      placed :
          (b : Bool)
          → Unique (assign k v o)
          → (b ≡ true → i ≡ k)
          → (b ≡ false → lookup i (assign k v o) ≡ none)
          → Unique (if b then (k, v) ∷ o else (i, w) ∷ assign k v o)
      placed true later same other = (subst (λ x. lookup x o ≡ none) (same refl) fresh, u)
      placed false later same other = (other refl, later)

  or_else-if :
      (b : Bool) (v : V) (m d : Option V)
      → (b ≡ true → m ≡ none)
      → or_else m (if b then some v else d) ≡ or_else (if b then some v else m) d
  or_else-if true v m d h = ap (λ n. or_else n (some v)) (h refl)
  or_else-if false v m d h = refl

  assign_all-Unique : (o xs : Object V) → Unique o → Unique (assign_all o xs)
  unfolding assign_all
  assign_all-Unique o [] u = u
  assign_all-Unique o ((k, v) ∷ xs) u = assign_all-Unique (assign k v o) xs (assign-Unique k v o u)

  lookup-assign_all :
      (j : String) (o xs : Object V)
      → Unique xs
      → lookup j (assign_all o xs) ≡ or_else (lookup j xs) (lookup j o)
  unfolding assign_all lookup
  lookup-assign_all j o [] u = refl
  lookup-assign_all j o ((k, v) ∷ xs) (fresh, u) =
      lookup-assign_all j (assign k v o) xs u
      ∙ ap (or_else (lookup j xs)) (lookup-assign k j v o)
      ∙ or_else-if (k === j) v (lookup j xs) (lookup j o)
          (λ e. subst (λ x. lookup x xs ≡ none) ((eq_iff k j).0 e) fresh)

  Follows-append :
      (xs : Object V) (rest : Option (Object V)) (acc o : Object V) (r : Option (Object V))
      → ((j : String) → lookup j o ≡ over j xs (lookup j acc))
      → Follows rest o r
      → Follows (rest >>= λ ys. some (xs ++ ys)) acc r
  Follows-append xs none acc o none h f = tt
  Follows-append xs (some ys) acc o (some p) h (u, f) =
      (u, λ j. f j ∙ ap (over j ys) (h j) ∙ sym (over-append j xs ys (lookup j acc)))
  Follows-append xs none acc o (some p) h f = absurd f
  Follows-append xs (some ys) acc o none h f = absurd f

  -- One entry after another.
  Follows->>= :
      (first : Option (Object V)) (r rest : Option (Object V)) (acc : Object V)
      (next : Object V → Option (Object V))
      → Follows first acc r
      → ((o xs : Object V)
          → Unique o
          → ((j : String) → lookup j o ≡ over j xs (lookup j acc))
          → Follows rest o (next o))
      → Follows (first >>= λ xs. rest >>= λ ys. some (xs ++ ys)) acc (r >>= next)
  Follows->>= none none rest acc next f h = tt
  Follows->>= (some xs) (some o) rest acc next (u, f) h =
      Follows-append xs rest acc o (next o) f (h o xs u f)
  Follows->>= none (some o) rest acc next f h = absurd f
  Follows->>= (some xs) none rest acc next f h = absurd f

  -- `{ ...obj, ...flat }` is `flat`, which has all that `obj` has.
  Follows-assign_all :
      (ls r : Option (Object V)) (obj acc : Object V)
      → Unique obj
      → ((j : String) → or_else (lookup j acc) (lookup j obj) ≡ lookup j acc)
      → Follows ls acc r
      → Follows ls acc (r >>= λ flat. some (assign_all obj flat))
  Follows-assign_all none none obj acc u c f = tt
  Follows-assign_all (some ls) (some o) obj acc u c (uo, f) = (
    assign_all-Unique obj o u,
    λ j.
        lookup-assign_all j obj o uo
        ∙ ap (λ x. or_else x (lookup j obj)) (f j)
        ∙ over-or_else j ls (lookup j acc) (lookup j obj) (c j),
  )
  Follows-assign_all none (some o) obj acc u c f = absurd f
  Follows-assign_all (some ls) none obj acc u c f = absurd f

  mutual
    unfolding flatten_entries

    flatten_entries-Follows :
        (entries : Entries V) (prefix : String) (obj acc : Object V)
        → Unique obj
        → Unique acc
        → ((j : String) → or_else (lookup j acc) (lookup j obj) ≡ lookup j acc)
        → Follows (leaves entries prefix) acc (flatten_entries entries prefix obj acc)
    flatten_entries-Follows end prefix obj acc uobj uacc c = (uacc, λ j. refl)
    flatten_entries-Follows (entry key value entries) prefix obj acc uobj uacc c =
        Follows->>= (leaves_of value (key_under prefix key)) _ (leaves entries prefix) acc _
          (flatten_value-Follows value (key_under prefix key) obj acc uobj uacc c)
          (λ o xs uo f. flatten_entries-Follows entries prefix obj o uobj uo (λ j.
            ap (λ x. or_else x (lookup j obj)) (f j)
            ∙ over-or_else j xs (lookup j acc) (lookup j obj) (c j)
            ∙ sym (f j)))

    flatten_value-Follows :
        (value : Value V) (key : String) (obj acc : Object V)
        → Unique obj
        → Unique acc
        → ((j : String) → or_else (lookup j acc) (lookup j obj) ≡ lookup j acc)
        → Follows (leaves_of value key) acc (flatten_value value key obj acc)
    flatten_value-Follows (plain v) key obj acc uobj uacc c =
        (assign-Unique key v acc uacc, λ j. lookup-assign key j v acc)
    flatten_value-Follows nullish key obj acc uobj uacc c = tt
    flatten_value-Follows (nested entries) key obj acc uobj uacc c =
        Follows-assign_all (leaves entries key) _ obj acc uobj c
          (flatten_entries-Follows entries key acc acc uacc uacc (λ j. or_else-same (lookup j acc)))

  -- The flattened object has the object that it began with, with the leaves over it, each under its
  -- dotted path and a later one in the place of an earlier one; it fails exactly if some value is
  -- `null` or `undefined`.
  pub flatten_object-leaves :
      (a : Entries V) (prefix : String) (obj : Object V)
      → Unique obj
      → Follows (leaves a prefix) obj (flatten_object a prefix obj)
  flatten_object-leaves a prefix obj u =
      flatten_entries-Follows a prefix obj obj u u (λ j. or_else-same (lookup j obj))
