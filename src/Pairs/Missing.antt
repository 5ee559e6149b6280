-- ===== src/Pairs/Missing.antt =====
-- FullPairDiscoverer.ts: the pairs that it finds for each exchange.
use block_listener.Base.{
  ℕ, zero, suc, ◌+◌, ◌-◌, String, not, ◌&&◌, leb, List, [], ◌∷◌, Option, none, some, ◌≡◌, refl, ap,
  ◌∙◌, ◌===◌, string_eq, inl, inr, Bool-cases, if◌then◌else◌, arith,
}
use block_listener.Base.Task.{returns}
use block_listener.Base.Runs.{returns->>=}
use block_listener.Values.{BlockchainId}
use block_listener.Rabbitmq.Objects.{Object, assign, lookup, lookup-assign}
use block_listener.Pairs.{Factory}
use block_listener.Pairs.Full.{
  Deps, fetch_addresses, fetch_factory, fetch_factories, fetch_missing_pairs,
}

-- The addresses that a factory's contract tells for the indices from one on.
abbrev pub addresses_from : (ℕ → String) → ℕ → ℕ → List String
addresses_from address_at i zero = []
addresses_from address_at i (suc rounds) = address_at i ∷ addresses_from address_at (i + 1) rounds

module _ (count : String → ℕ) (pairs_length : Factory → ℕ) (address_at : Factory → ℕ → String) where
  -- The pairs of a factory from the number of the stored ones on.
  abbrev pub new_pairs : Factory → List String
  new_pairs f = addresses_from (address_at f) (count f.dex) (pairs_length f - count f.dex)

  -- The new pairs of the last factory of an exchange that has more pairs than are stored.
  abbrev pub last_new_pairs : String → Option (List String) → List Factory → Option (List String)
  last_new_pairs dex found [] = found
  last_new_pairs dex found (f ∷ fs) =
      last_new_pairs dex
        (if (f.dex === dex) && not (leb (pairs_length f) (count f.dex))
          then some (new_pairs f)
          else found)
        fs

module _ {D : Type 0} (deps : Deps D) (b : BlockchainId) (count : String → ℕ)
    (pairs_length : Factory → ℕ) (address_at : Factory → ℕ → String)
    (counts : (dex : String) (d : D) → deps.count_dex_pairs dex b d ≡ returns (count dex) d)
    (lengths : (f : Factory) (d : D) → deps.all_pairs_length f d ≡ returns (pairs_length f) d)
    (answers : (f : Factory) (i : ℕ) (d : D)
      → deps.all_pairs f (deps.to_hex i) d ≡ returns (address_at f i) d) where
  fetch_addresses_lem :
      (f : Factory) (i rounds : ℕ) (d : D)
      → fetch_addresses deps f i rounds d ≡ returns (addresses_from (address_at f) i rounds) d
  unfolding fetch_addresses
  fetch_addresses_lem f i zero d = refl
  fetch_addresses_lem f i (suc rounds) d =
      ground (arith, answers f i d, fetch_addresses_lem f (i + 1) rounds d)

  abbrev after_factory : Object (List String) → Factory → Object (List String)
  after_factory o f =
      if leb (pairs_length f) (count f.dex)
      then o
      else assign f.dex (new_pairs count pairs_length address_at f) o

  fetch_factory_lem :
      (o : Object (List String)) (f : Factory) (d : D)
      → fetch_factory deps b o f d ≡ returns (after_factory o f) d
  unfolding fetch_factory
  fetch_factory_lem o f d = ground (
    arith,
    counts f.dex d,
    lengths f d,
    fetch_addresses_lem f (count f.dex) (pairs_length f - count f.dex) d,
  )

  lookup-after_factory :
      (dex : String) (o : Object (List String)) (f : Factory)
      → lookup dex (after_factory o f) ≡ (
          if (f.dex === dex) && not (leb (pairs_length f) (count f.dex))
          then some (new_pairs count pairs_length address_at f)
          else lookup dex o)
  lookup-after_factory dex o f = elim (Bool-cases (leb (pairs_length f) (count f.dex))) [
    | inl full ↦ ground (arith, full)
    | inr more ↦
        ground (arith, more, lookup-assign f.dex dex (new_pairs count pairs_length address_at f) o)
  ]

  fetch_factories_lem :
      (fs : List Factory) (o : Object (List String)) (d : D)
      → (found : Object (List String)) × (fetch_factories deps b o fs d ≡ returns found d)
        × ((dex : String)
            → lookup dex found ≡ last_new_pairs count pairs_length address_at dex (lookup dex o) fs)
  unfolding fetch_factories
  fetch_factories_lem [] o d = (o, refl, λ dex. refl)
  fetch_factories_lem (f ∷ fs) o d =
      let (found, done, holds) = fetch_factories_lem fs (after_factory o f) d in
      (
        found,
        returns->>= (fetch_factory deps b o f) (λ p. fetch_factories deps b p fs) d d
              (after_factory o f) (fetch_factory_lem o f d)
            ∙ done,
        λ dex.
            holds dex
            ∙ ap (λ r. last_new_pairs count pairs_length address_at dex r fs)
                (lookup-after_factory dex o f),
      )

  -- While the node and the repository answer, what is found for an exchange are the pairs of its
  -- last factory that has more of them than are stored for the exchange: those at the indices from
  -- that number on, in their order, and none of another factory of the same exchange.
  pub fetch_missing_pairs_lem :
      (fs : List Factory) (d : D)
      → deps.get_provider b d ≡ returns tt d
      → (found : Object (List String)) × (fetch_missing_pairs deps b fs d ≡ returns found d)
        × ((dex : String)
            → lookup dex found ≡ last_new_pairs count pairs_length address_at dex none fs)
  unfolding fetch_missing_pairs lookup
  fetch_missing_pairs_lem fs d provides =
      let (found, done, holds) = fetch_factories_lem fs [] d in
      (found, ground (arith, provides, done), holds)
