-- ===== src/Rabbitmq/Objects.antt =====
-- Plain objects as association lists, and `String.prototype.replace` with a text to look for.
use Prim.Native.String.{◌++◌, len, slice}
use text.Mathlib.Text.{find?}
use block_listener.Base.{
  ◌+◌, String, ◌===◌, string_eq, List, [], ◌∷◌, Option, none, some, if◌then◌else◌, ◌≡◌, eq_iff,
  arith,
}

abbrev pub Object : Type 0 → Type 0
Object V = List (String × V)

-- `{ ...object, [key]: value }`
unfoldable pub assign : {V : Type 0} → String → V → Object V → Object V
assign key value [] = (key, value) ∷ []
assign key value ((k, v) ∷ object) =
    if k === key then (key, value) ∷ object else (k, v) ∷ assign key value object

-- `{ ...object, ...other }`
unfoldable pub assign_all : {V : Type 0} → Object V → Object V → Object V
unfolding assign
assign_all object [] = object
assign_all object ((k, v) ∷ other) = assign_all (assign k v object) other

-- `object[key]`
unfoldable pub lookup : {V : Type 0} → String → Object V → Option V
lookup key [] = none
lookup key ((k, v) ∷ object) = if k === key then some v else lookup key object

pub lookup-assign :
    {V : Type 0} (k j : String) (v : V) (object : Object V)
    → lookup j (assign k v object) ≡ (if k === j then some v else lookup j object)
unfolding lookup assign
lookup-assign k j v [] = ground (arith, eq_iff k j)
lookup-assign k j v ((i, u) ∷ object) =
    ground (arith, eq_iff k j, eq_iff i k, eq_iff i j, lookup-assign k j v object)

-- `text.replace(pattern, replacement)`: the first occurrence.
unfoldable pub replace_first : String → String → String → String
replace_first text pattern_text replacement = elim (find? text pattern_text) [
  | none ↦ text
  | some i ↦ slice text 0 i ++ (replacement ++ slice text (i + len pattern_text) (len text))
]
