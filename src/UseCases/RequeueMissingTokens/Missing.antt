-- ===== src/UseCases/RequeueMissingTokens/Missing.antt =====
-- RequeueMissingTokens.ts: the addresses that are announced.
use block_listener.Base.{
  String, Bool, not, ◌&&◌, ◌||◌, any, is_some, List, [], ◌∷◌, ◌≡◌, refl, ap, ◌∙◌, ◌===◌, string_eq,
  eq_iff, inl, inr, Bool-cases, Option-cases, if◌then◌else◌, arith,
}
use block_listener.Base.Task.{returns}
use block_listener.Base.Runs.{returns->>=}
use block_listener.App.Steps.{on_db-returns}
use block_listener.Values.{BlockchainId}
use block_listener.Entities.Token.{TokenProps}
use block_listener.Messages.{token_discovered}
use block_listener.Utils.Address.{to_lower_case}
use block_listener.Rabbitmq.Objects.{Object, assign, lookup}
use block_listener.App.{App, Effect, sent, on_db}
use block_listener.UseCases.RequeueMissingTokens.{
  Deps, tokens_by_addr_reducer, tokens_by_addr, requeue, requeue_missing, requeue_listed,
  process_blockchain,
}

-- A token has the address, in small letters.
abbrev pub has_token : List TokenProps → String → Bool
has_token tokens address = any (λ t. to_lower_case t.address === to_lower_case address) tokens

abbrev pub sent_if : (String → Bool) → BlockchainId → List String → List Effect → List Effect
sent_if p b [] es = es
sent_if p b (a ∷ addrs) es =
    sent_if p b addrs (if p a then sent (token_discovered b a) ∷ es else es)

sent_if-same :
    (p q : String → Bool)
    → ((a : String) → p a ≡ q a)
    → (b : BlockchainId) (addrs : List String) (es : List Effect)
    → sent_if p b addrs es ≡ sent_if q b addrs es
sent_if-same p q same b [] es = refl
sent_if-same p q same b (a ∷ addrs) es =
    ap (λ r. sent_if p b addrs (if r then sent (token_discovered b a) ∷ es else es)) (same a)
    ∙ sent_if-same p q same b addrs _

or_assoc : (a b c : Bool) → ((a || b) || c) ≡ (a || (b || c))
or_assoc a b c = ground arith

lookup-assign :
    {V : Type 0} (k j : String) (v : V) (object : Object V)
    → is_some (lookup j (assign k v object)) ≡ (is_some (lookup j object) || (k === j))
unfolding lookup assign
lookup-assign k j v [] = ground arith
lookup-assign k j v ((i, u) ∷ object) = ground (arith, lookup-assign k j v object, eq_iff i k)

lookup-tokens_by_addr :
    (tokens : List TokenProps) (object : Object TokenProps) (address : String)
    → is_some (lookup (to_lower_case address) (tokens_by_addr object tokens))
      ≡ (is_some (lookup (to_lower_case address) object) || has_token tokens address)
unfolding tokens_by_addr assign tokens_by_addr_reducer
lookup-tokens_by_addr [] object address = ground arith
lookup-tokens_by_addr (t ∷ ts) object address =
    lookup-tokens_by_addr ts (assign (to_lower_case t.address) t object) address
    ∙ ap (λ r. r || has_token ts address)
        (lookup-assign (to_lower_case t.address) (to_lower_case address) t object)
    ∙ or_assoc (is_some (lookup (to_lower_case address) object))
        (to_lower_case t.address === to_lower_case address) (has_token ts address)

module _ {D : Type 0} (deps : Deps D) (b : BlockchainId) where
  -- The broker takes the announcement.
  abbrev pub is_accepted : D → String → Bool
  is_accepted d a = not (is_some (deps.publish_error (token_discovered b a) d))

  requeue_lem :
      (object : Object TokenProps) (addrs : List String) (w : App D)
      → requeue deps b object addrs w
        ≡ returns tt (record w {
          effects =
              sent_if
                (λ a. not (is_some (lookup (to_lower_case a) object)) && is_accepted w.db a)
                b
                addrs
                w.effects;
        })
  unfolding requeue
  requeue_lem object [] w = refl
  requeue_lem object (a ∷ addrs) w = elim (Bool-cases (is_some (lookup (to_lower_case a) object))) [
    | inl found ↦ rw (found, requeue_lem object addrs w)
    | inr missing ↦ elim (Option-cases (deps.publish_error (token_discovered b a) w.db)) [
      | inl taken ↦ ground (
        arith,
        missing,
        taken,
        requeue_lem object addrs (record w { effects = sent (token_discovered b a) ∷ w.effects }),
      )
      | inr (e, refused) ↦ ground (arith, missing, refused, requeue_lem object addrs w)
    ]
  ]

  -- While the database answers, the addresses of the swaps whose token the answer does not have,
  -- in any case of the letters, are announced in their order, each as often as it is listed and the
  -- broker takes it, and no others.
  pub process_blockchain_lem :
      (addrs : List String) (tokens : List TokenProps) (w : App D) (d e : D)
      → deps.get_all_tokens_found_in_swaps b w.db ≡ returns addrs d
      → deps.find_tokens_by_blockchain_address addrs b d ≡ returns tokens e
      → process_blockchain deps b w
        ≡ returns tt (record {
          db = e;
          effects = sent_if (λ a. not (has_token tokens a) && is_accepted e a) b addrs w.effects;
        })
  unfolding process_blockchain lookup requeue_missing requeue_listed
  process_blockchain_lem addrs tokens w d e listed found =
      let w1 = record w { db = d } in
      let w2 = record w { db = e } in
      let object = tokens_by_addr [] tokens in
      returns->>= (on_db (deps.get_all_tokens_found_in_swaps b)) (requeue_listed deps b) w w1 addrs
        (on_db-returns (deps.get_all_tokens_found_in_swaps b) w addrs d listed)
      ∙ returns->>= (on_db (deps.find_tokens_by_blockchain_address addrs b))
          (requeue_missing deps b addrs) w1 w2 tokens
          (on_db-returns (deps.find_tokens_by_blockchain_address addrs b) w1 tokens e found)
      ∙ requeue_lem object addrs w2
      ∙ ap (λ es. returns tt (record w2 { effects = es }))
          (sent_if-same (λ a. not (is_some (lookup (to_lower_case a) object)) && is_accepted e a)
            (λ a. not (has_token tokens a) && is_accepted e a)
            (λ a. ap (λ r. not r && is_accepted e a) (lookup-tokens_by_addr tokens [] a)) b addrs
            w.effects)
