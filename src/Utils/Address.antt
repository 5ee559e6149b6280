-- ===== src/Utils/Address.antt =====
-- App/Utils/Address.ts, over ethers' `getAddress`.
pub mod Map
use Prim.Native.Char.{Char, code}
use block_listener.Base.{
  String, Bool, false, ◌===◌, string_eq, nat_eq, List, [], ◌∷◌, Option, none, some, if◌then◌else◌,
  get_or,
}
use block_listener.Base.Task.{Thrown}

-- `toLowerCase` on ASCII text.
lower_table : List (Char × Char)
lower_table =
    ("A", "a")
    ∷ ("B", "b")
    ∷ ("C", "c")
    ∷ ("D", "d")
    ∷ ("E", "e")
    ∷ ("F", "f")
    ∷ ("G", "g")
    ∷ ("H", "h")
    ∷ ("I", "i")
    ∷ ("J", "j")
    ∷ ("K", "k")
    ∷ ("L", "l")
    ∷ ("M", "m")
    ∷ ("N", "n")
    ∷ ("O", "o")
    ∷ ("P", "p")
    ∷ ("Q", "q")
    ∷ ("R", "r")
    ∷ ("S", "s")
    ∷ ("T", "t")
    ∷ ("U", "u")
    ∷ ("V", "v")
    ∷ ("W", "w")
    ∷ ("X", "x")
    ∷ ("Y", "y")
    ∷ ("Z", "z")
    ∷ []

lower_by : List (Char × Char) → Char → Char
lower_by [] c = c
lower_by ((upper, lower) ∷ table) c = if code upper === code c then lower else lower_by table c

unfoldable pub to_lower_case : String → String
unfolding lower_table lower_by
to_lower_case String.[] = String.[]
to_lower_case (String.◌∷◌ c s) = String.◌∷◌ (lower_by lower_table c) (to_lower_case s)

module _ (get_address : String → Option String) where
  -- `none` where `getAddress` throws.
  unfoldable pub checksumed : Option String → Option String
  checksumed address = get_address (to_lower_case (get_or address ""))

  abbrev pub equal_if_valid : Option String → Option String → Option Bool
  equal_if_valid none b = none
  equal_if_valid (some a) none = none
  equal_if_valid (some a) (some b) = some (a === b)

  -- `address1 && address2 && …`, where the empty text and `undefined` are false.
  unfoldable pub is_same_address : Option String → Option String → Option Bool
  is_same_address none b = some false
  is_same_address (some a) none = some false
  is_same_address (some a) (some b) =
      if a === ""
      then some false
      else if b === ""
      then some false
      else equal_if_valid (checksumed (some (to_lower_case a)))
          (checksumed (some (to_lower_case b)))

abbrev pub invalid_address : Thrown
invalid_address = record {
  is_direct_to_dead = false;
  name = "Error";
  message = "invalid address";
  stack = "";
}
