-- ===== src/Utils/Address/Map.antt =====
-- App/Utils/Address.ts: `isAddreddIn`, and the map of `createAddrMap`, whose keys are addresses in any
-- spelling. `none` is a throw of `getAddress`; keys that a plain object inherits are not read.
use Prim.Native.String.{slice}
use block_listener.Base.{
  String, Bool, true, false, ◌===◌, string_eq, List, [], ◌∷◌, Option, none, some, if◌then◌else◌,
  ◌≡◌, refl, ap, ◌>>=◌,
}
use block_listener.Rabbitmq.Objects.{Object, assign, lookup, lookup-assign}
use block_listener.Utils.Address.{checksumed, is_same_address}

module _ (get_address : String → Option String) where
  unfoldable pub is_addredd_in : String → List String → Option Bool
  is_addredd_in address1 [] = some false
  is_addredd_in address1 (address ∷ addresses) =
      elim (is_same_address get_address (some address) (some address1)) [
        | none ↦ none
        | some true ↦ some true
        | some false ↦ is_addredd_in address1 addresses
      ]

  abbrev pub prepare_prop : String → Option String
  prepare_prop prop =
      if slice prop 0 2 === "0x" then checksumed get_address (some prop) else some prop

  module _ {V : Type 0} where
    unfoldable pub prepared_from : Object V → Object V → Option (Object V)
    prepared_from prepared [] = some prepared
    prepared_from prepared ((addr, value) ∷ initial_value) =
        elim (checksumed get_address (some addr)) [
          | none ↦ none
          | some key ↦ prepared_from (assign key value prepared) initial_value
        ]

    abbrev pub create_addr_map : Object V → Option (Object V)
    create_addr_map initial_value = prepared_from [] initial_value

    unfoldable pub get_prop : Object V → String → Option (Option V)
    get_prop target prop = prepare_prop prop >>= λ key. some (lookup key target)

    unfoldable pub set_prop : Object V → String → V → Option (Object V)
    set_prop target prop value = prepare_prop prop >>= λ key. some (assign key value target)

    -- What is read after a property is set: the new value under every spelling of its address, and
    -- what the map had under any other.
    pub get_prop-set_prop :
        (target : Object V) (prop other : String) (value : V)
        → (set_prop target prop value >>= λ changed. get_prop changed other) ≡ (
            prepare_prop prop >>= λ key. prepare_prop other >>= λ other_key.
            some (if key === other_key then some value else lookup other_key target))
    unfolding get_prop set_prop
    get_prop-set_prop target prop other value = by_key (prepare_prop prop) (prepare_prop other)
      where
        by_key :
            (key other_key : Option String)
            → ((key >>= λ k. some (assign k value target)) >>= λ changed.
                other_key >>= λ o. some (lookup o changed))
              ≡ (key >>= λ k.
                  other_key >>= λ o. some (if k === o then some value else lookup o target))
        by_key none other_key = refl
        by_key (some k) none = refl
        by_key (some k) (some o) = ap some (lookup-assign k o value target)
