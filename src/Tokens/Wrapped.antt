-- ===== src/Tokens/Wrapped.antt =====
-- App/Services/TokenService.ts: the service's own cache of the wrapped token, and the price of a pair.
use block_listener.Base.{[], ◌∷◌, ◌≡◌, refl, inl, inr, Option-cases, arith}
use block_listener.Base.Task.{returns, Outcome-cases}
use block_listener.Values.{BlockchainId, blockchain_eq}
use block_listener.Entities.Token.{TokenProps}
use block_listener.Tokens.{Deps, Service, get_wrapped_token}

module _ {D : Type 0} (deps : Deps D) where
  -- A wrapped token that was given for a blockchain is given for it from then on, with no question
  -- to the database and the service left as it is.
  pub get_wrapped_token-again :
      (b : BlockchainId) (s t : Service D) (token : TokenProps)
      → get_wrapped_token deps b s ≡ returns token t
      → get_wrapped_token deps b t ≡ returns token t
  unfolding get_wrapped_token
  get_wrapped_token-again b s t token given = elim (Option-cases ((s.static_cache b).wrapped)) [
    | inr (cached, hit) ↦ ground (arith, hit)
    | inl miss ↦ elim (Outcome-cases (deps.find_native_wrapped b s.db)) [
      | inr (e, d, failed) ↦ ground (arith, miss, failed)
      | inl ([], d, found) ↦ ground (arith, miss, found)
      | inl (u ∷ us, d, found) ↦ ground (arith, miss, found, (blockchain_eq.beq_iff b b).1 refl)
    ]
  ]
