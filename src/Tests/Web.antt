-- ===== src/Tests/Web.antt =====
-- Runs of the middlewares and of the controllers.
use block_listener.Base.{ℕ, String, ◌≡◌, ◌≢◌, ◌↔◌, refl, [], none, some, string_eq}
use block_listener.Values.{BlockchainId, WalletType}
use block_listener.Http.{next_handler, api_token_auth_middleware, CreateWalletDto}
use block_listener.App.{App}
use block_listener.Http.Auth.{api_token_auth_middleware-next_iff}

api_token_auth_middleware-next_iff_example :
    (api_token_auth_middleware (some "secret") "POST" (some "secret") ≡ next_handler)
    ↔ ((t : String) × (t ≢ "") × (some "secret" ≡ some t) × (some "secret" ≡ some t))
api_token_auth_middleware-next_iff_example =
    api_token_auth_middleware-next_iff (some "secret") (some "secret") "POST" refl

abbrev empty_address : CreateWalletDto
empty_address = record {
  address = "";
  blockchain = BlockchainId.ethereum;
  type = WalletType.whale;
  alias = none;
  tags = none;
  relations = none;
}

abbrev idle : App ℕ
idle = record { db = 5; effects = [] }
