-- ===== src/Tokens/Multicall.antt =====
-- App/Interfaces/IProviderFactory.ts: `multicallResultHelper`, over what the multicall answers.
use block_listener.Base.{
  ℕ, zero, suc, String, ◌===◌, string_eq, List, [], ◌∷◌, map, Option, none, some, if◌then◌else◌,
}
use block_listener.Rabbitmq.Objects.{Object, lookup}

-- A value that a contract returns, as far as the program looks at it.
pub data ContractValue : Type 0 where
  text : String → ContractValue
  number : ℕ → ContractValue
  other : ContractValue

pub record CallReturn : Type 0 where
  pub reference : String
  pub return_values : List ContractValue

-- What `select` gives for a method: one value, or the list of them when they are not one.
pub data Selected : Type 0 where
  one : ContractValue → Selected
  many : List ContractValue → Selected

abbrev pub selected : List ContractValue → Selected
selected (v ∷ []) = one v
selected [] = many []
selected (v ∷ u ∷ vs) = many (v ∷ u ∷ vs)

-- `xs.indexOf(x)`, `none` for -1
unfoldable pub index_of : String → List String → Option ℕ
index_of x [] = none
index_of x (y ∷ ys) =
    let rest = index_of x ys in
    if y === x then some 0 else elim rest [ none ↦ none | some i ↦ some (suc i) ]

-- `xs[i] = a` within the list
unfoldable pub set_at : {A : Type 0} → ℕ → A → List A → List A
set_at i a [] = []
set_at zero a (x ∷ xs) = a ∷ xs
set_at (suc i) a (x ∷ xs) = x ∷ set_at i a xs

-- The step of the `reduce`.
abbrev pub select_step : List String → List (Option Selected) → CallReturn → List (Option Selected)
select_step method_references result call_return =
    elim (index_of call_return.reference method_references) [
      | none ↦ result
      | some i ↦ set_at i (some (selected call_return.return_values)) result
    ]

unfoldable pub select_from :
    List String → List (Option Selected) → List CallReturn → List (Option Selected)
unfolding index_of set_at
select_from method_references result [] = result
select_from method_references result (c ∷ cs) =
    select_from method_references (select_step method_references result c) cs

-- `select(contractReference, methodReferences)`, `none` where it reads a property of `undefined`.
unfoldable pub select :
    Object (List CallReturn) → String → List String → Option (List (Option Selected))
unfolding select_from lookup
select results contract_reference method_references = elim (lookup contract_reference results) [
  | none ↦ none
  | some calls ↦ some (select_from method_references (map (λ _. none) method_references) calls)
]

-- What the calls say of a method, the last one of them that has it, or `d` if none has.
abbrev pub last_return : String → Option Selected → List CallReturn → Option Selected
last_return r d [] = d
last_return r d (c ∷ cs) =
    last_return r (if r === c.reference then some (selected c.return_values) else d) cs

-- The methods, each with what the calls say of it.
abbrev pub returns_of :
    List String → List (Option Selected) → List CallReturn → List (Option Selected)
returns_of [] ds cs = ds
returns_of (r ∷ rs) [] cs = []
returns_of (r ∷ rs) (d ∷ ds) cs = last_return r d cs ∷ returns_of rs ds cs
