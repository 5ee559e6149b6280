-- ===== src/Pairs/Bases.antt =====
-- SelectivePairDiscoverer.ts: the tokens that make a pair.
use block_listener.Base.{
  ◌⊎◌, In, any-In, In-any, ◌↔◌, sym, String, Bool, true, false, not, ◌&&◌, any, List, [], ◌∷◌, ◌≡◌,
  refl, ap, ◌∙◌, ◌===◌, string_eq, eq_iff, inl, inr, if◌then◌else◌, arith,
}
use block_listener.Values.{BlockchainId, blockchain_eq, blockchain_beq_iff}
use block_listener.Entities.Token.{TokenProps}
use block_listener.Pairs.Selective.{tokens_of}

-- The address is that of the pair of a base token and another one.
abbrev pub is_pair_of :
    (String → String → String) → String → List TokenProps → List TokenProps → Bool
is_pair_of pair_at address bases others =
    any (λ base. any (λ other. pair_at base.address other.address === address) others) bases

-- The address is that of the pair of a token of the blockchain that is a base, and one that is not.
abbrev pub IsPairOf : (String → String → String) → List TokenProps → BlockchainId → String → Type 0
IsPairOf pair_at tokens b address =
    (base : TokenProps) × (other : TokenProps) × (In base tokens × In other tokens)
    × ((base.blockchain ≡ b) × (other.blockchain ≡ b))
    × ((base.use_as_base_for_pair_discovery ≡ true)
        × (other.use_as_base_for_pair_discovery ≡ false))
    × (pair_at base.address other.address ≡ address)

abbrev IsOf : Bool → BlockchainId → List TokenProps → TokenProps → Type 0
IsOf base b tokens t = In t tokens × (t.blockchain ≡ b) × (t.use_as_base_for_pair_discovery ≡ base)

-- An entry of a list with a first entry that is kept if a test holds.
kept_or_later :
    (c : Bool) (u t : TokenProps) (rest : List TokenProps)
    → In t (if c then u ∷ rest else rest)
    → ((c ≡ true) × (u ≡ t)) ⊎ In t rest
kept_or_later true u t rest (inl same) = inl (refl, same)
kept_or_later true u t rest (inr later) = inr later
kept_or_later false u t rest later = inr later

kept :
    (c : Bool) (u t : TokenProps) (rest : List TokenProps)
    → c ≡ true
    → u ≡ t
    → In t (if c then u ∷ rest else rest)
kept true u t rest h same = inl same
kept false u t rest h same = ground (arith, h)

kept_later :
    (c : Bool) (u t : TokenProps) (rest : List TokenProps)
    → In t rest
    → In t (if c then u ∷ rest else rest)
kept_later true u t rest later = inr later
kept_later false u t rest later = later

-- The test of `tokens_of`.
abbrev is_of : Bool → BlockchainId → TokenProps → Bool
is_of base b u =
    u.blockchain === b
    && (if base then u.use_as_base_for_pair_discovery else not u.use_as_base_for_pair_discovery)

is_of_iff :
    (base : Bool) (b : BlockchainId) (u : TokenProps)
    → (is_of base b u ≡ true) ↔ ((u.blockchain ≡ b) × (u.use_as_base_for_pair_discovery ≡ base))
is_of_iff true b u = ground (arith, blockchain_beq_iff u.blockchain b)
is_of_iff false b u = ground (arith, blockchain_beq_iff u.blockchain b)

tokens_of-IsOf :
    (base : Bool) (b : BlockchainId) (tokens : List TokenProps) (t : TokenProps)
    → In t (tokens_of base b tokens)
    → IsOf base b tokens t
unfolding tokens_of
tokens_of-IsOf base b [] t h = absurd h
tokens_of-IsOf base b (u ∷ us) t h =
    elim (kept_or_later (is_of base b u) u t (tokens_of base b us) h) [
      | inl (taken, same) ↦
          let (on, flag) = (is_of_iff base b t).0 (ap (is_of base b) (sym same) ∙ taken) in
          (inl same, on, flag)
      | inr later ↦
          let (member, on, flag) = tokens_of-IsOf base b us t later in (inr member, on, flag)
    ]

IsOf-tokens_of :
    (base : Bool) (b : BlockchainId) (tokens : List TokenProps) (t : TokenProps)
    → IsOf base b tokens t
    → In t (tokens_of base b tokens)
unfolding tokens_of
IsOf-tokens_of base b [] t h = absurd h.0
IsOf-tokens_of base b (u ∷ us) t (inl same, on, flag) =
    kept (is_of base b u) u t (tokens_of base b us)
      (ap (is_of base b) same ∙ (is_of_iff base b t).1 (on, flag)) same
IsOf-tokens_of base b (u ∷ us) t (inr later, on, flag) =
    kept_later (is_of base b u) u t (tokens_of base b us)
      (IsOf-tokens_of base b us t (later, on, flag))

pub is_pair_of-IsPairOf :
    (pair_at : String → String → String) (tokens : List TokenProps) (b : BlockchainId)
    (address : String)
    → is_pair_of pair_at address (tokens_of true b tokens) (tokens_of false b tokens) ≡ true
    → IsPairOf pair_at tokens b address
is_pair_of-IsPairOf pair_at tokens b address h =
    let (base, in_bases, some_other) = any-In _ _ h in
    let (other, in_others, same) = any-In _ _ some_other in
    let (m, on, flag) = tokens_of-IsOf true b tokens base in_bases in
    let (n, other_on, other_flag) = tokens_of-IsOf false b tokens other in_others in
    (
      base,
      other,
      (m, n),
      (on, other_on),
      (flag, other_flag),
      (eq_iff (pair_at base.address other.address) address).0 same,
    )

pub IsPairOf-is_pair_of :
    (pair_at : String → String → String) (tokens : List TokenProps) (b : BlockchainId)
    (address : String)
    → IsPairOf pair_at tokens b address
    → is_pair_of pair_at address (tokens_of true b tokens) (tokens_of false b tokens) ≡ true
IsPairOf-is_pair_of pair_at tokens b address
      (base, other, (m, n), (on, other_on), (flag, other_flag), same) =
    In-any _ _ base (IsOf-tokens_of true b tokens base (m, on, flag)) (
      In-any _ _ other (IsOf-tokens_of false b tokens other (n, other_on, other_flag))
        ((eq_iff (pair_at base.address other.address) address).1 same))
