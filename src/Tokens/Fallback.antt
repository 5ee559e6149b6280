-- ===== src/Tokens/Fallback.antt =====
-- App/Services/TokenService.ts: the names that come as 32 bytes, and the wrapped token.
use block_listener.Base.{
  ℕ, String, List, [], ◌∷◌, Option, none, some, ◌≡◌, refl, ◌⊎◌, inl, inr, Option-cases, Bool-cases,
  arith,
}
use block_listener.Base.Task.{Thrown, returns, throws}
use block_listener.Values.{BlockchainId}
use block_listener.Rabbitmq.Objects.{Object, lookup}
use block_listener.Tokens.Multicall.{ContractValue, CallReturn, Selected, last_return, select}
use block_listener.Tokens.Selection.{select_lem}
use block_listener.Tokens.{Deps, TokenData}
use block_listener.Tokens.Fetch.{
  invalid_bytes32, invalid_token_data, validation_failed, undefined_results, standard_key,
  bytes32_key, truthy, element, numeric, or_bytes32, checked_token, fetched_token,
}

module _ {D : Type 0} (deps : Deps D) (b : BlockchainId) where
  or_bytes32-cases :
      {S : Type 0} (value value32 parsed : Option Selected) (s : S)
      → ((v : Option Selected) × (or_bytes32 deps b value value32 parsed s ≡ returns v s))
        ⊎ ((e : Thrown) × (or_bytes32 deps b value value32 parsed s ≡ throws e s))
  or_bytes32-cases value value32 parsed s = elim (Bool-cases (truthy value)) [
    | inl full ↦ inl (value, ground (arith, full))
    | inr empty ↦ elim (Bool-cases (truthy value32)) [
      | inr empty32 ↦ inl (value32, ground (arith, empty, empty32))
      | inl full32 ↦ elim (Option-cases (deps.parse_bytes32_string parsed)) [
        | inl invalid ↦ inr (invalid_bytes32, ground (arith, empty, full32, invalid))
        | inr (t, valid) ↦
            inl (some (Selected.one (ContractValue.text t)), ground (arith, empty, full32, valid))
      ]
    ]
  ]

  module _
      (rejects : (d : TokenData) (vs : List ContractValue)
        → d.name ≡ Selected.many vs
        → deps.create_fetched d ≡ none) where
    checked_token-throws :
        {S : Type 0} (address : String) (vs : List ContractValue) (symbol : Option Selected)
        (decimals : Option ℕ) (s : S)
        → (e : Thrown) × (checked_token deps b address (some (Selected.many vs)) symbol decimals s
            ≡ throws e s)
    checked_token-throws address vs none decimals s = (invalid_token_data, ground arith)
    checked_token-throws address vs (some symbol) none s = (invalid_token_data, ground arith)
    checked_token-throws address vs (some symbol) (some decimals) s =
        elim (Bool-cases (truthy (some symbol))) [
          | inr empty ↦ (invalid_token_data, ground (arith, empty))
          | inl full ↦ (
            validation_failed,
            ground (
              arith,
              full,
              rejects
                  (record {
                    address = address;
                    blockchain = b;
                    decimals = decimals;
                    name = Selected.many vs;
                    symbol = symbol;
                  })
                  vs,
            ),
          )
        ]

    -- A token whose `name()` gave no values is never created, whatever the calls for its name and
    -- its symbol as 32 bytes gave: an empty list of values is true, so they are not looked at for
    -- the name, and the schema takes no list for a name.
    pub fetched_token-throws :
        {S : Type 0} (results : Object (List CallReturn)) (address : String)
        (calls : List CallReturn) (s : S)
        → lookup (standard_key address) results ≡ some calls
        → last_return "name" none calls ≡ some (Selected.many [])
        → (e : Thrown) × (fetched_token deps b results address s ≡ throws e s)
    unfolding fetched_token
    fetched_token-throws results address calls s found nameless =
        let symbol = last_return "symbol" none calls in
        let decimals = last_return "decimals" none calls in
        let selected =
          select_lem results (standard_key address) ("name" ∷ "symbol" ∷ "decimals" ∷ []) refl in
        elim (Option-cases (select results (bytes32_key address) ("name" ∷ "symbol" ∷ []))) [
          | inl missing ↦ (undefined_results, ground (arith, selected, found, missing))
          | inr (bytes32, given) ↦
              elim (or_bytes32-cases symbol (element 1 bytes32) (element 0 bytes32) s) [
                | inr (e, failed) ↦ (e, ground (arith, selected, found, nameless, given, failed))
                | inl (v, done) ↦
                    let (e, failed) = checked_token-throws address [] v (numeric decimals) s in
                    (e, ground (arith, selected, found, nameless, given, done, failed))
              ]
        ]
