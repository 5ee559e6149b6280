-- ===== src/Tokens/Asking.antt =====
-- App/Services/TokenService.ts: `getTokensFromDbAndCache` and what `fetchTokensData` asks for.
use mathlib.Core.List.{Memᴰ, ◌++◌ as append}
use mathlib.Core.List.Memᴰ as Members
use block_listener.Base.{
  String, ◌≡◌, refl, ◌∙◌, subst, List, [], ◌∷◌, Option, none, some, inl, inr, arith,
}
use block_listener.Base.Task.{returns, or_fail}
use block_listener.Base.Runs.{
  Each, returns->>=, Returns, Gives, Each-nil, Each-cons, promise_all-Returns, map_task-Gives,
}
use block_listener.Values.{BlockchainId}
use block_listener.Entities.Token.{TokenProps}
use block_listener.Utils.Address.{checksumed, invalid_address}
use block_listener.Tokens.{
  Deps, invalid_token, defined, token_cache_key, get_tokens_from_db_and_cache,
}
use block_listener.Tokens.Known.{IsAddress, AreAddresses, filter_unique-members}
use block_listener.Tokens.Fetch.{fetch_tokens_data, fetch_by_multicall, known_or_fetched}

defined-Each :
    {A : Type 0} (P : A → Type 0) (os : List (Option A))
    → Each (λ o. (a : A) → o ≡ some a → P a) os
    → Each P (defined os)
defined-Each P [] all = Each-nil P
defined-Each P (none ∷ os) all = defined-Each P os (λ o o_in. all o (Memᴰ.tail o_in))
defined-Each P (some a ∷ os) all =
    Each-cons P a (defined os) (all (some a) (Memᴰ.head refl) a refl)
      (defined-Each P os (λ o o_in. all o (Memᴰ.tail o_in)))

module _ {D : Type 0} (deps : Deps D) where
  open deps use {get_address}

  -- The cache and the database answer, with tokens whose addresses `getAddress` takes.
  pub record Answers : Type 0 where
    pub cache_answers :
        (key : String)
        → Returns
            (λ o.
              (p : TokenProps)
              → o ≡ some p
              → (t : TokenProps) × (deps.create_token p ≡ some t) × IsAddress get_address t.address)
            (deps.cache_get key)
    pub db_answers :
        (addresses : List String) (b : BlockchainId)
        → Returns (AreAddresses get_address) (deps.find_tokens_by_blockchain_address addresses b)

  module _ (answers : Answers) (b : BlockchainId) where
    -- Whatever tokens the cache and the database have, `getTokensFromDbAndCache` finds none of the
    -- addresses, as long as the two answer and all the addresses are valid.
    pub get_tokens_from_db_and_cache_lem :
        (addrs : List String)
        → Each (λ a. (c : String) × (checksumed get_address (some a) ≡ some c)) addrs
        → Returns (λ known. known ≡ []) (get_tokens_from_db_and_cache deps b addrs)
    unfolding get_tokens_from_db_and_cache
    get_tokens_from_db_and_cache_lem addrs valid s =
        let (cached, t, read, cached_ok) =
          promise_all-Returns _ (λ a. deps.cache_get (token_cache_key b a))
            (λ a. answers.cache_answers (token_cache_key b a)) addrs s in
        let (from_cache, created, cache_ok) =
          map_task-Gives {S = D} (λ u. IsAddress get_address u.address)
            (λ p. or_fail invalid_token (deps.create_token p)) (defined cached)
            (defined-Each
              (λ p.
                Gives (λ u. IsAddress get_address u.address)
                  (or_fail invalid_token (deps.create_token p)))
              cached
              (λ o o_in p e.
                let (u, made, ok) = cached_ok o o_in p e in (u, λ v. ground (arith, made), ok))) in
        let (addresses, checked, _) =
          map_task-Gives {S = D} (λ a. Unit {0})
            (λ a. or_fail invalid_address (checksumed get_address (some a))) addrs
            (λ a a_in. let (c, e) = valid a a_in in (c, λ v. ground (arith, e), tt)) in
        let (from_db, u, found, db_ok) = answers.db_answers addresses b t in
        let list = append from_db from_cache in
        let nothing =
          filter_unique-members get_address list list (λ x x_in. x_in)
            (λ x x_in. elim (Members.append_cases from_db x_in) [
              | inl in_db ↦ db_ok x in_db
              | inr in_cache ↦ cache_ok x in_cache
            ]) in
        ([], u, ground (arith, read, created t, checked t, found, nothing), refl)

    -- As long as the cache and the database answer, `fetchTokensData` asks the multicall for all of
    -- the addresses that it is given, if there are any and all are valid: whatever tokens the cache
    -- and the database have play no part.
    pub fetch_tokens_data-asks :
        (a : String) (addrs : List String)
        → Each (λ x. (c : String) × (checksumed get_address (some x) ≡ some c)) (a ∷ addrs)
        → (s : D)
        → (t : D) × (fetch_tokens_data deps b (a ∷ addrs) s
            ≡ fetch_by_multicall deps b (a ∷ addrs) [] t)
    unfolding fetch_tokens_data
    fetch_tokens_data-asks a addrs valid s =
        let (known, t, found, nothing) = get_tokens_from_db_and_cache_lem (a ∷ addrs) valid s in
        let empty =
          subst (λ l. get_tokens_from_db_and_cache deps b (a ∷ addrs) s ≡ returns l t) nothing
            found in
        (
          t,
          returns->>= (get_tokens_from_db_and_cache deps b (a ∷ addrs))
                (known_or_fetched deps b (a ∷ addrs)) s t [] empty
              ∙ ground arith,
        )
