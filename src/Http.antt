-- ===== src/Http.antt =====
-- Api/Http: the middlewares, the paginated responses and the controllers. What Joi says of a body is
-- a parameter.
pub mod Auth
pub mod Wallets
pub mod Lists
use block_listener.Base.{
  ℕ, String, Bool, true, false, not, ◌||◌, List, [], ◌∷◌, ◌++◌, Option, none, some, get_or,
  if◌then◌else◌, ◌===◌, string_eq, nat_eq, map,
}
use block_listener.Base.Segments.{length}
use block_listener.Base.Task.{Thrown, Outcome, returns, throws, Task}
use block_listener.Values.{BlockchainId, WalletType, WalletTagName, ContractType}
use block_listener.Entities.Wallet.{NewRelation}
use block_listener.Entities.Token.{TokenProps, ContractProps}
use block_listener.Messages.{
  Message, WalletDiscoveredPayload, tx_discovered, wallet_discovered, token_discovered,
}
use block_listener.App.{App, publish, store, stored_token, stored_contract}
use block_listener.Repository.Pages.{FindAllOptions, FindAllResponse, Collection, find_all}

-- What a handler throws. The two classes named `ValidationError`, of Api/Http and of App, differ.
pub data HttpError : Type 0 where
  http_validation_error : HttpError
  app_validation_error : HttpError
  other_error : Thrown → HttpError

pub data Handled (W A : Type 0) : Type 0 where
  answers : ℕ → A → W → Handled W A
  raises : HttpError → W → Handled W A

-- `globalErrorMiddleware`: the status and the message.
abbrev pub global_error_middleware : HttpError → ℕ × String
global_error_middleware http_validation_error = (400, "Invalid payload")
global_error_middleware app_validation_error = (500, "Something went wrong")
global_error_middleware (other_error e) = (500, "Something went wrong")

-- `getEnv` of a variable with an empty default or none; `none` where it throws.
unfoldable pub get_env : Option String → Option String → Option String
get_env value def_value = elim value [
  | none ↦ def_value
  | some v ↦ if v === "" then def_value else some v
]

-- `ApiTokenAuthMiddleware`
pub data Access : Type 0 where
  next_handler : Access
  refused : Access
  misconfigured : Access

abbrev pub is_token : String → Option String → Access
is_token token none = misconfigured
is_token token (some api_token) = if token === api_token then next_handler else refused

unfoldable pub api_token_auth_middleware : Option String → String → Option String → Access
unfolding get_env
api_token_auth_middleware api_token method token =
    if method === "POST" || method === "PUT"
    then elim token [
      | none ↦ refused
      | some t ↦ if t === "" then refused else is_token t (get_env api_token none)
    ]
    else next_handler

-- A request through the middlewares: the status, and what is left.
unfoldable pub serve :
    {W A : Type 0} → Option String → String → Option String → (W → Handled W A) → W → ℕ × W
unfolding api_token_auth_middleware
serve api_token method token handler w = elim (api_token_auth_middleware api_token method token) [
  | refused ↦ (401, w)
  | misconfigured ↦ (500, w)
  | next_handler ↦ elim (handler w) [
    | answers status body t ↦ (status, t)
    | raises e t ↦ ((global_error_middleware e).0, t)
  ]
]

pub record PaginatedResponse (V : Type 0) : Type 0 where
  pub success : Bool
  pub entities : List V
  pub total : ℕ
  pub page : ℕ
  pub page_size : ℕ

-- `a || b` on numbers
abbrev pub or_number : ℕ → ℕ → ℕ
or_number a b = if a === 0 then b else a

unfoldable pub build_paginated_response : {V : Type 0} → FindAllResponse V → PaginatedResponse V
build_paginated_response res = record {
  success = true;
  entities = res.entities;
  total = or_number res.total (length res.entities);
  page = or_number res.page 1;
  page_size = or_number res.page_size (length res.entities);
}

-- `text ? Number(text) : def`, for texts of natural numbers
abbrev pub number_or : (String → ℕ) → Option String → ℕ → ℕ
number_or number none def_value = def_value
number_or number (some text) def_value = if text === "" then def_value else number text

-- The lists of the controllers of wallets, tokens, contracts and transactions.
unfoldable pub index :
    {M F V : Type 0}
    → Collection M F V
    → (String → ℕ)
    → F
    → Option String
    → Option String
    → M
    → PaginatedResponse V
unfolding find_all build_paginated_response
index c number filter page page_size m = build_paginated_response (
    find_all c
      (record {
        filter = filter;
        page = some (number_or number page 1);
        page_size = some (number_or number page_size 500);
      })
      m)

abbrev pub answered : {W A : Type 0} → ℕ → Outcome W A → Handled W A
answered status (returns a w) = answers status a w
answered status (throws e w) = raises (other_error e) w

pub record CreateWalletDto : Type 0 where
  pub address : String
  pub blockchain : BlockchainId
  pub type : WalletType
  pub alias : Option String
  pub tags : Option (List WalletTagName)
  pub relations : Option (List NewRelation)

abbrev pub discovered_wallet : CreateWalletDto → WalletDiscoveredPayload
discovered_wallet body = record {
  blockchain = body.blockchain;
  alias = body.alias;
  address = body.address;
  type = some body.type;
  tags = some (get_or body.tags [] ++ WalletTagName.added_manually ∷ []);
  relations = body.relations;
}

module _ {D : Type 0} (publish_error : Message → D → Option Thrown) where
  -- `WalletController.createWallet`, which validates by App's class.
  unfoldable pub create_wallet :
      (CreateWalletDto → Bool) → CreateWalletDto → App D → Handled (App D) (Unit {0})
  create_wallet is_valid body w =
      if is_valid body
      then answered 202 (publish publish_error (wallet_discovered (discovered_wallet body)) w)
      else raises app_validation_error w

  -- `TokenController.saveTx` and `TxController.saveTx`
  unfoldable pub save_token_async : BlockchainId → String → App D → Handled (App D) (Unit {0})
  save_token_async blockchain address w =
      answered 202 (publish publish_error (token_discovered blockchain address) w)

  unfoldable pub save_tx : BlockchainId → String → App D → Handled (App D) (Unit {0})
  save_tx blockchain hash w = answered 202 (
      publish publish_error
        (tx_discovered (record {
          blockchain = blockchain;
          hash = hash;
          save_unknown = none;
          save_destination_address = none;
          tx_res = none;
          tx_receipt = none;
          block = none;
        }))
        w)

module _ {D : Type 0} where
  -- `TokenController.createContract`, which saves a token, and `ContractController.createContract`:
  -- the schema of the body, the one of the entity, and `save`.
  abbrev pub saved : {A : Type 0} → Task (App D) (Unit {0}) → A → App D → Handled (App D) A
  saved save_task entity w = elim (save_task w) [
    | returns _ t ↦ answers 200 entity t
    | throws e t ↦ raises (other_error e) t
  ]

  unfoldable pub create_entity :
      {B A : Type 0}
      → (B → Option B)
      → (B → Option A)
      → (A → Task (App D) (Unit {0}))
      → B
      → App D
      → Handled (App D) A
  create_entity validate create save_entity body w = elim (validate body) [
    | none ↦ raises http_validation_error w
    | some valid ↦ elim (create valid) [
      | none ↦ raises app_validation_error w
      | some entity ↦ saved (save_entity entity) entity w
    ]
  ]

  abbrev pub create_token :
      (TokenProps → Option TokenProps)
      → (TokenProps → Option TokenProps)
      → (TokenProps → Task D (Unit {0}))
      → TokenProps
      → App D
      → Handled (App D) TokenProps
  unfolding create_entity
  create_token validate create save =
      create_entity validate create (λ t. store (stored_token t) (save t))

  -- The contract is created from the body as it is, not from what the schema gives.
  abbrev pub create_contract :
      ℕ
      → (ContractProps → Bool)
      → (ContractProps → Option ContractProps)
      → (ContractProps → Task D (Unit {0}))
      → ContractProps
      → App D
      → Handled (App D) ContractProps
  unfolding create_entity
  create_contract now is_valid create save =
      create_entity (λ body. if is_valid body then some body else none)
        (λ body. create (record body { created_at = now }))
        (λ c. store (stored_contract c) (save c))

-- `TxController.getTx`: every error is a 404.
unfoldable pub get_tx : {D V : Type 0} → Task D (Option V) → D → Handled D (Option V)
get_tx find_one d = elim (find_one d) [
  | throws e t ↦ answers 404 none t
  | returns tx t ↦ elim tx [ none ↦ answers 404 none t | some v ↦ answers 200 (some v) t ]
]
