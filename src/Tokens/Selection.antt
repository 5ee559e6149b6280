-- ===== src/Tokens/Selection.antt =====
-- App/Interfaces/IProviderFactory.ts: `select` against what the calls say of each method.
use block_listener.Base.{
  String, Bool, true, false, not, ◌&&◌, any, ◌≡◌, refl, ◌∙◌, sym, ap, subst, ◌===◌, string_eq, List,
  [], ◌∷◌, map, Option, none, some, inl, inr, Option-cases, Bool-cases, arith,
}
use block_listener.Rabbitmq.Objects.{Object, lookup}
use block_listener.Tokens.Multicall.{
  CallReturn, Selected, index_of, set_at, select_step, select_from, select, last_return, returns_of,
}

abbrev pub distinct : List String → Bool
distinct [] = true
distinct (r ∷ rs) = not (any (λ x. x === r) rs) && distinct rs

returns_of-other :
    (rs : List String) (ds : List (Option Selected)) (c : CallReturn) (cs : List CallReturn)
    → any (λ x. x === c.reference) rs ≡ false
    → returns_of rs ds (c ∷ cs) ≡ returns_of rs ds cs
returns_of-other [] ds c cs other = refl
returns_of-other (r ∷ rs) [] c cs other = refl
returns_of-other (r ∷ rs) (d ∷ ds) c cs other = ground (arith, returns_of-other rs ds c cs)

select_step-nil : (rs : List String) (c : CallReturn) → select_step rs [] c ≡ []
unfolding set_at
select_step-nil rs c = elim (Option-cases (index_of c.reference rs)) [
  | inl absent ↦ ground arith
  | inr (i, found) ↦ ground arith
]

returns_of-step :
    (rs : List String) (ds : List (Option Selected)) (c : CallReturn) (cs : List CallReturn)
    → distinct rs ≡ true
    → returns_of rs (select_step rs ds c) cs ≡ returns_of rs ds (c ∷ cs)
unfolding index_of set_at
returns_of-step [] ds c cs all_apart = refl
returns_of-step (r ∷ rs) [] c cs all_apart =
    ap (λ l. returns_of (r ∷ rs) l cs) (select_step-nil (r ∷ rs) c)
returns_of-step (r ∷ rs) (d ∷ ds) c cs all_apart = elim (Bool-cases (r === c.reference)) [
  | inl here ↦
      let same = (string_eq.beq_iff r c.reference).0 here in
      let other = subst (λ k. any (λ x. x === k) rs ≡ false) same (ground (arith, all_apart)) in
      ground (arith, here, returns_of-other rs ds c cs other)
  | inr elsewhere ↦ elim (Option-cases (index_of c.reference rs)) [
    | inl absent ↦ ground (arith, returns_of-step rs ds c cs)
    | inr (i, found) ↦ ground (arith, returns_of-step rs ds c cs)
  ]
]

returns_of-nil : (rs : List String) (ds : List (Option Selected)) → returns_of rs ds [] ≡ ds
returns_of-nil [] ds = refl
returns_of-nil (r ∷ rs) [] = refl
returns_of-nil (r ∷ rs) (d ∷ ds) = ap (λ l. d ∷ l) (returns_of-nil rs ds)

returns_of-none :
    (rs : List String) (cs : List CallReturn)
    → returns_of rs (map (λ r. none) rs) cs ≡ map (λ r. last_return r none cs) rs
returns_of-none [] cs = refl
returns_of-none (r ∷ rs) cs = ap (λ l. last_return r none cs ∷ l) (returns_of-none rs cs)

select_from_lem :
    (rs : List String) (ds : List (Option Selected)) (cs : List CallReturn)
    → distinct rs ≡ true
    → select_from rs ds cs ≡ returns_of rs ds cs
unfolding select_from
select_from_lem rs ds [] all_apart = sym (returns_of-nil rs ds)
select_from_lem rs ds (c ∷ cs) all_apart =
    select_from_lem rs (select_step rs ds c) cs all_apart ∙ returns_of-step rs ds c cs all_apart

-- For method references that differ from each other, `select` gives for each of them, in their
-- order, what the last call of that method returned, and nothing for a method without a call. It
-- throws exactly where there are no results for the contract.
pub select_lem :
    (results : Object (List CallReturn)) (contract_reference : String) (rs : List String)
    → distinct rs ≡ true
    → select results contract_reference rs ≡ elim (lookup contract_reference results) [
      | none ↦ none
      | some calls ↦ some (map (λ r. last_return r none calls) rs)
    ]
unfolding select lookup
select_lem results contract_reference rs all_apart =
    elim (Option-cases (lookup contract_reference results)) [
      | inl missing ↦ ground arith
      | inr (calls, found) ↦
          ground (
            arith,
            select_from_lem rs (map (λ r. none) rs) calls all_apart,
            returns_of-none rs calls,
          )
    ]
