-- ===== src/Utils/Flat.antt =====
-- `flattenObject` of App/Utils/Misc.ts. A value is what the function sees of it: its text is
-- "[object Object]" and it has entries, it is `null` or `undefined`, which have no `toString`, or it
-- is any other value. `none` is the throw of the second.
pub mod Leaves
use Prim.Native.String.{◌++◌}
use block_listener.Base.{
  String, List, [], ◌∷◌, Option, none, some, if◌then◌else◌, ◌===◌, string_eq, ◌>>=◌,
}
use block_listener.Rabbitmq.Objects.{Object, assign, assign_all}

module _ (V : Type 0) where
  mutual
    pub data Value : Type 0 where
      plain : V → Value
      nullish : Value
      nested : Entries → Value

    pub data Entries : Type 0 where
      end : Entries
      entry : String → Value → Entries → Entries

abbrev pub key_under : String → String → String
key_under prefix key = if prefix === "" then key else prefix ++ ("." ++ key)

-- The fold of `reduce` over the entries, with `obj` beside the accumulated `_obj`.
unfoldable mutual
  unfolding assign assign_all

  pub flatten_entries : {V : Type 0} → Entries V → String → Object V → Object V → Option (Object V)
  flatten_entries end prefix obj acc = some acc
  flatten_entries (entry key value entries) prefix obj acc =
      flatten_value value (key_under prefix key) obj acc >>= flatten_entries entries prefix obj

  pub flatten_value : {V : Type 0} → Value V → String → Object V → Object V → Option (Object V)
  flatten_value (plain v) key obj acc = some (assign key v acc)
  flatten_value nullish key obj acc = none
  flatten_value (nested entries) key obj acc =
      flatten_entries entries key acc acc >>= λ flat. some (assign_all obj flat)

abbrev pub flatten_object : {V : Type 0} → Entries V → String → Object V → Option (Object V)
flatten_object a prefix obj = flatten_entries a prefix obj obj
