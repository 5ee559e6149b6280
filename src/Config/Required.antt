-- ===== src/Config/Required.antt =====
-- Config.ts: when the settings can be read.
use block_listener.Base.{
  ◌>>=◌, ℕ, String, Bool, true, ◌&&◌, not, is_some, List, Option, none, some, ◌≡◌, refl, ◌===◌,
  string_eq, arith,
}
use block_listener.Values.{BlockchainId}
use block_listener.Http.{get_env}
use block_listener.Providers.{JsonRpcConfig}
use block_listener.Config.{nodes_of, get_config}

-- The variable has a text that is not empty.
abbrev pub is_set : Option String → Bool
is_set none = not true
is_set (some value) = not (value === "")

is_some->>= :
    {A B : Type 0} (m : Option A) (f : A → Option B) (rest : Bool)
    → ((a : A) → is_some (f a) ≡ rest)
    → is_some (m >>= f) ≡ (is_some m && rest)
is_some->>= none f rest h = refl
is_some->>= (some a) f rest h = h a

required_lem :
    {B : Type 0} (value : Option String) (f : String → Option B) (rest : Bool)
    → ((a : String) → is_some (f a) ≡ rest)
    → is_some (get_env value none >>= f) ≡ (is_set value && rest)
unfolding get_env
required_lem none f rest h = refl
required_lem (some v) f rest h = ground (arith, h v)

default_lem :
    {B : Type 0} (value : Option String) (d : String) (f : String → Option B) (rest : Bool)
    → ((a : String) → is_some (f a) ≡ rest)
    → is_some (get_env value (some d) >>= f) ≡ rest
unfolding get_env
default_lem none d f rest h = h d
default_lem (some v) d f rest h = ground (arith, h v, h d)

module _ (env : String → Option String) (parse_nodes : String → Option (List JsonRpcConfig))
    (number parse_int : String → Option ℕ) where
  abbrev pub has_nodes : BlockchainId → Bool
  has_nodes b = is_some (nodes_of env parse_nodes number parse_int b)

  -- The settings are read exactly if the seven variables without a default are set to texts that
  -- are not empty, and the lists of nodes can be parsed and have URLs.
  pub get_config-required : is_some (get_config env parse_nodes number parse_int) ≡ (
      is_set (env "DISCORD_STATUS_WEBHOOK_URL")
      && (is_set (env "REDIS_URL")
          && (has_nodes BlockchainId.ethereum
              && (has_nodes BlockchainId.binance
                  && (has_nodes BlockchainId.polygon
                      && (is_set (env "DATABASE_URI")
                          && (is_set (env "BROKER_URI")
                              && (is_set (env "BROKER_API_URL")
                                  && (is_set (env "COVALENT_API_KEY")
                                      && (is_set (env "FINNHUB_API_KEY") && true))))))))))
  unfolding get_config
  get_config-required = default_lem (env "LOGTAIL_ACCESS_TOKEN") "" _ _ (λ a.
      required_lem (env "DISCORD_STATUS_WEBHOOK_URL") _ _ (λ b.
        required_lem (env "REDIS_URL") _ _ (λ c.
          is_some->>= (nodes_of env parse_nodes number parse_int BlockchainId.ethereum) _ _ (λ d.
            is_some->>= (nodes_of env parse_nodes number parse_int BlockchainId.binance) _ _ (λ e.
              is_some->>= (nodes_of env parse_nodes number parse_int BlockchainId.polygon) _ _ (λ f.
                default_lem (env "DATABASE_NAME") "blocklistener" _ _ (λ g.
                  required_lem (env "DATABASE_URI") _ _ (λ h.
                    default_lem (env "PORT") "80" _ _ (λ i.
                      required_lem (env "BROKER_URI") _ _ (λ j.
                        required_lem (env "BROKER_API_URL") _ _ (λ k.
                          required_lem (env "COVALENT_API_KEY") _ _ (λ l.
                            required_lem (env "FINNHUB_API_KEY") _ _ (λ m.
                              default_lem (env "DEF_LISTENER_START_BLOCK") "latest" _ _ (λ n.
                                default_lem (env "MAX_SAVE_TX_MSGS_TO_HALT") "10000" _ _
                                  (λ o. refl)))))))))))))))
