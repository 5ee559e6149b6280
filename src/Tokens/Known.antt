-- ===== src/Tokens/Known.antt =====
-- App/Utils/Token.ts: the test is made against the list that the token is in.
use mathlib.Core.List.{Memᴰ}
use block_listener.Base.{
  String, false, true, Bool, ◌≡◌, refl, sym, subst, ◌===◌, string_eq, List, [], ◌∷◌, Option, some,
  inl, inr, Bool-cases, arith,
}
use block_listener.Entities.Token.{TokenProps}
use block_listener.Utils.Address.{to_lower_case, checksumed, is_same_address}
use block_listener.Tokens.{some_with_address, filter_unique}

module _ (get_address : String → Option String) where
  -- A text that `getAddress` takes.
  abbrev pub IsAddress : String → Type 0
  IsAddress a =
      (a === "" ≡ false) × (c : String) × (checksumed get_address (some (to_lower_case a)) ≡ some c)

  abbrev pub AreAddresses : List TokenProps → Type 0
  AreAddresses ts = (t : TokenProps) → Memᴰ t ts → IsAddress t.address

  same_of_valid :
      (a b : String)
      → IsAddress a
      → IsAddress b
      → (r : Bool) × (is_same_address get_address (some a) (some b) ≡ some r)
  unfolding is_same_address
  same_of_valid a b (a_text, c, a_ok) (b_text, d, b_ok) = (c === d, ground (arith, a_ok, b_ok))

  same_itself :
      (a : String) → IsAddress a → is_same_address get_address (some a) (some a) ≡ some true
  unfolding is_same_address
  same_itself a (a_text, c, a_ok) = ground (arith, a_ok, (string_eq.beq_iff c c).1 refl)

  same_as_equal :
      (t u : TokenProps)
      → t ≡ u
      → IsAddress u.address
      → is_same_address get_address (some u.address) (some t.address) ≡ some true
  same_as_equal t u e ok =
      subst (λ v. is_same_address get_address (some u.address) (some v.address) ≡ some true) (sym e)
        (same_itself u.address ok)

  some_with_address-member :
      (t : TokenProps) (list : List TokenProps)
      → Memᴰ t list
      → IsAddress t.address
      → AreAddresses list
      → some_with_address get_address t.address list ≡ some true
  unfolding some_with_address
  some_with_address-member t [] member valid ok = elim member [ ]
  some_with_address-member t (u ∷ us) (Memᴰ.head e) valid ok =
      ground (arith, same_as_equal t u e (ok u (Memᴰ.head refl)))
  some_with_address-member t (u ∷ us) (Memᴰ.tail m) valid ok =
      let below = some_with_address-member t us m valid (λ v v_in. ok v (Memᴰ.tail v_in)) in
      let (same, answer) = same_of_valid u.address t.address (ok u (Memᴰ.head refl)) valid in
      elim (Bool-cases same) [
        | inl same_true ↦ ground (arith, answer, below)
        | inr same_false ↦ ground (arith, answer, below)
      ]

  pub filter_unique-members :
      (ts list : List TokenProps)
      → ((t : TokenProps) → Memᴰ t ts → Memᴰ t list)
      → AreAddresses list
      → filter_unique get_address ts list ≡ some []
  unfolding filter_unique
  filter_unique-members [] list among ok = refl
  filter_unique-members (t ∷ ts) list among ok =
      let member = among t (Memᴰ.head refl) in
      ground (
        arith,
        some_with_address-member t list member (ok t member) ok,
        filter_unique-members ts list (λ u u_in. among u (Memᴰ.tail u_in)) ok,
      )
