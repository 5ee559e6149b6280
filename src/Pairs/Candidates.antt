-- ===== src/Pairs/Candidates.antt =====
-- SelectivePairDiscoverer.ts: the pairs that it finds for a factory.
use block_listener.Base.{
  In, any-In, In-any, ◌≢◌, ◌↔◌, sym, String, Bool, true, false, not, ◌&&◌, any, any-append, List,
  [], ◌∷◌, ◌++◌, ◌≡◌, refl, ap, ◌∙◌, ◌===◌, string_eq, eq_iff, inl, inr, Bool-cases, if◌then◌else◌,
  arith,
}
use block_listener.Base.Task.{returns}
use block_listener.Values.{BlockchainId, blockchain_eq}
use block_listener.Utils.Address.{to_lower_case}
use block_listener.Entities.Token.{TokenProps}
use block_listener.Rabbitmq.Objects.{assign}
use block_listener.Pairs.{Factory}
use block_listener.Pairs.Bases.{is_pair_of, IsPairOf, is_pair_of-IsPairOf, IsPairOf-is_pair_of}
use block_listener.Pairs.Selective.{
  Deps, PairAndTokens, tokens_of, skip_pair, pairs_with, pairs_of, fetch_factories,
  fetch_missing_pairs,
}

abbrev pub finds : String → List PairAndTokens → Bool
finds address found = any (λ p. p.address === address) found

module _ {D : Type 0} (deps : Deps D) (pairs : List String) (address : String) where
  not_skipped :
      skip_pair deps address pairs ≡ false
      → (address ≢ deps.zero_address)
        × ((pair : String) → In pair pairs → to_lower_case pair ≢ to_lower_case address)
  unfolding skip_pair
  not_skipped h = (
    λ zero_address. ground (arith, h, eq_iff address deps.zero_address, zero_address),
    λ pair member same.
        let stored =
          In-any (λ p. to_lower_case p === to_lower_case address) pairs pair member
            ((eq_iff (to_lower_case pair) (to_lower_case address)).1 same) in
        ground (arith, h, stored),
  )

  is_skipped :
      address ≢ deps.zero_address
      → ((pair : String) → In pair pairs → to_lower_case pair ≢ to_lower_case address)
      → skip_pair deps address pairs ≡ false
  unfolding skip_pair
  is_skipped not_zero new =
      elim (Bool-cases (any (λ p. to_lower_case p === to_lower_case address) pairs)) [
        | inl stored ↦
            let (pair, member, same) = any-In _ _ stored in
            absurd (new pair member ((eq_iff (to_lower_case pair) (to_lower_case address)).0 same))
        | inr absent ↦ ground (arith, absent, eq_iff address deps.zero_address, not_zero)
      ]

module _ {D : Type 0} (deps : Deps D) (f : Factory) (pair_at : String → String → String)
    (answers : (base other : String) (d : D)
      → deps.get_pair f base other d ≡ returns (pair_at base other) d)
    (pairs : List String) where
  pairs_with_lem :
      (base : TokenProps) (others : List TokenProps) (d : D)
      → (found : List PairAndTokens) × (pairs_with deps f pairs base others d ≡ returns found d)
        × ((address : String)
            → finds address found ≡ (
                any (λ other. pair_at base.address other.address === address) others
                && not (skip_pair deps address pairs)))
  unfolding pairs_with
  pairs_with_lem base [] d = ([], refl, λ a. refl)
  pairs_with_lem base (other ∷ others) d =
      let (rest, done, holds) = pairs_with_lem base others d in
      let a = pair_at base.address other.address in
      (
        if skip_pair deps a pairs
            then rest
            else record { address = a; token_a = other; token_base = base } ∷ rest,
        ground (arith, answers base.address other.address d, done),
        λ address. elim (Bool-cases (a === address)) [
          | inl same ↦
              let e : a ≡ address = (eq_iff a address).0 same in
              ground (arith, holds address, ap (λ x. skip_pair deps x pairs) e, same)
          | inr other_address ↦ ground (arith, holds address, other_address)
        ],
      )

  pairs_of_lem :
      (bases others : List TokenProps) (d : D)
      → (found : List PairAndTokens) × (pairs_of deps f pairs bases others d ≡ returns found d)
        × ((address : String)
            → finds address found
              ≡ (is_pair_of pair_at address bases others && not (skip_pair deps address pairs)))
  unfolding pairs_of
  pairs_of_lem [] others d = ([], refl, λ a. refl)
  pairs_of_lem (base ∷ bases) others d =
      let (found, done, holds) = pairs_with_lem base others d in
      let (rest, rest_done, rest_holds) = pairs_of_lem bases others d in
      (
        found ++ rest,
        ground (arith, done, rest_done),
        λ address.
            any-append (λ p. p.address === address) found rest
            ∙ ground (arith, holds address, rest_holds address),
      )

  -- While the node and the repository answer, the pairs that are found for the only factory of a
  -- blockchain have exactly these addresses: what the factory tells for a token of the blockchain
  -- that is a base and one that is not, if it is not the zero address and no stored pair has it in
  -- any case of the letters.
  pub fetch_missing_pairs-finds :
      (tokens : List TokenProps) (b : BlockchainId) (d : D)
      → deps.find_pairs b d ≡ returns pairs d
      → deps.get_provider b d ≡ returns tt d
      → (found : List PairAndTokens) × (fetch_missing_pairs deps tokens b (f ∷ []) d
          ≡ returns ((f.dex, found) ∷ []) d)
        × ((address : String)
            → (finds address found ≡ true) ↔ (
                IsPairOf pair_at tokens b address
                × (address ≢ deps.zero_address)
                × ((pair : String) → In pair pairs → to_lower_case pair ≢ to_lower_case address)))
  unfolding fetch_missing_pairs fetch_factories assign
  fetch_missing_pairs-finds tokens b d stored provides =
      let bases = tokens_of true b tokens in
      let others = tokens_of false b tokens in
      let (found, done, holds) = pairs_of_lem bases others d in
      (
        found,
        ground (arith, stored, provides, done),
        λ address. (
          λ h.
              let both : is_pair_of pair_at address bases others
                    && not (skip_pair deps address pairs)
                  ≡ true =
                sym (holds address) ∙ h in
              let taken : skip_pair deps address pairs ≡ false = ground (arith, both) in
              let new = not_skipped deps pairs address taken in
              (is_pair_of-IsPairOf pair_at tokens b address (ground (arith, both)), new.0, new.1),
          λ h.
              holds address
              ∙ ground (
                arith,
                IsPairOf-is_pair_of pair_at tokens b address h.0,
                is_skipped deps pairs address h.1 h.2,
              ),
        ),
      )
