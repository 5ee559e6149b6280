-- ===== src/Http/Auth.antt =====
-- ApiTokenAuthMiddleware.ts
use block_listener.Base.{
  String, true, false, ◌||◌, Option, none, some, apart, ◌≡◌, ◌≢◌, ◌↔◌, refl, ◌===◌, string_eq,
  eq_iff, inl, inr, Bool-cases, arith,
}
use block_listener.Http.{next_handler, get_env, is_token, api_token_auth_middleware}

is_token-next :
    (api_token : Option String) (t : String)
    → t === "" ≡ false
    → is_token t (get_env api_token none) ≡ next_handler
    → api_token ≡ some t
unfolding get_env
is_token-next none t full reached = ground (arith, reached)
is_token-next (some v) t full reached = ground (arith, reached, eq_iff t v, eq_iff v "")

-- A request with POST or PUT goes on to its handler exactly if the token of the environment is set
-- and not empty, and the request has it.
pub api_token_auth_middleware-next_iff :
    (api_token token : Option String) (method : String)
    → (method === "POST" || method === "PUT") ≡ true
    → (api_token_auth_middleware api_token method token ≡ next_handler)
      ↔ ((t : String) × (t ≢ "") × (api_token ≡ some t) × (token ≡ some t))
unfolding api_token_auth_middleware get_env
api_token_auth_middleware-next_iff api_token none method writes =
    (λ reached. ground (arith, writes, reached), λ (t, full, set, sent). ground (arith, sent))
api_token_auth_middleware-next_iff api_token (some u) method writes = (
  λ reached. elim (Bool-cases (u === "")) [
    | inl empty ↦ ground (arith, writes, reached, empty)
    | inr full ↦ (
      u,
      apart u "" full,
      is_token-next api_token u full (ground (arith, writes, reached, full)),
      refl,
    )
  ],
  λ (t, full, set, sent).
      ground (arith, writes, full, set, sent, eq_iff t "", (string_eq.beq_iff t t).1 refl),
)
