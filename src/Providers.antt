-- ===== src/Providers.antt =====
-- App/Services/Providers: ProviderFactory.ts and Utils.ts, and the lists of nodes of Config.ts. A
-- provider is its URL; the bottleneck and the random number are parameters.
pub mod Choice
use Prim.Native.String.{◌++◌}
use block_listener.Base.{
  ℕ, zero, suc, String, Bool, true, false, not, List, [], ◌∷◌, map, find, Option, none, some,
  if◌then◌else◌, get_or, ◌===◌, string_eq,
}
use block_listener.Base.Segments.{length}
use block_listener.Base.Task.{
  Thrown, Outcome, returns, throws, Task, pure, throw, ◌>>=◌, catch, promise_all,
}
use block_listener.Values.{BlockchainId}

pub record JsonRpcConfig : Type 0 where
  pub max_concurrent : Option ℕ
  pub min_time : Option ℕ
  pub disabled : Option Bool
  pub url : String

-- An entry of `config.providers`.
pub record Node : Type 0 where
  pub url : String
  pub max_concurrent : Option ℕ
  pub min_time : Option ℕ

-- `validateInlineJsonRpcCfg`: `none` where it throws, for an empty URL or none.
abbrev pub validate_inline_json_rpc_cfg : JsonRpcConfig → Option JsonRpcConfig
validate_inline_json_rpc_cfg cfg =
    if cfg.url === ""
    then none
    else some (record cfg { disabled = some (get_or cfg.disabled false) })

abbrev pub validated : List JsonRpcConfig → Option (List JsonRpcConfig)
validated [] = some []
validated (cfg ∷ cfgs) =
    let rest = validated cfgs in
    elim (validate_inline_json_rpc_cfg cfg) [
      | none ↦ none
      | some valid ↦ elim rest [ none ↦ none | some valids ↦ some (valid ∷ valids) ]
    ]

abbrev pub enabled_nodes : List JsonRpcConfig → List Node
enabled_nodes [] = []
enabled_nodes (cfg ∷ cfgs) =
    if get_or cfg.disabled false
    then enabled_nodes cfgs
    else record { url = cfg.url; max_concurrent = cfg.max_concurrent; min_time = cfg.min_time }
      ∷ enabled_nodes cfgs

-- The nodes that `prepareNodeList` adds for the configurations of one blockchain.
unfoldable pub prepare_node_list : List JsonRpcConfig → Option (List Node)
prepare_node_list cfgs = elim (validated cfgs) [
  | none ↦ none
  | some valids ↦ some (enabled_nodes valids)
]

-- The `send` of the wrapped provider: its error is a `ProviderError`.
abbrev pub provider_error : Thrown → Thrown
provider_error error = record error {
  is_direct_to_dead = false;
  name = "Error";
  message = "[Provider#send] " ++ error.message;
}

unfoldable pub wrapped_send : {D R : Type 0} → (Task D R → Task D R) → Task D R → Task D R
wrapped_send schedule send = catch (schedule send) (λ error. throw (provider_error error))

abbrev pub item_at : {A : Type 0} → ℕ → List A → Option A
item_at i [] = none
item_at zero (x ∷ xs) = some x
item_at (suc i) (x ∷ xs) = item_at i xs

abbrev pub undefined_provider : Thrown
undefined_provider = record {
  is_direct_to_dead = false;
  name = "TypeError";
  message = "Cannot read properties of undefined (reading 'provider')";
  stack = "";
}

-- `check` is that of a node's bottleneck.
abbrev pub provider_status : {D : Type 0} → (String → Task D Bool) → Node → Task D (String × Bool)
provider_status check n = do available ← check n.url; pure (n.url, available)

abbrev pub available_or : String → List (String × Bool) → String
available_or random_provider statuses = elim (find (λ p. p.1) statuses) [
  | some p ↦ p.0
  | none ↦ random_provider
]

-- `random_below n` is `Math.floor(Math.random() * n)`.
module _ {D : Type 0} (check : String → Task D Bool) (random_below : ℕ → Task D ℕ)
    (disable_providers_bottleneck : Bool) where
  abbrev pub by_check : List Node → String → Bool → Task D String
  unfolding promise_all
  by_check nodes random_provider true = pure random_provider
  by_check nodes random_provider false = do
    statuses ← promise_all (provider_status check) nodes
    pure (available_or random_provider statuses)

  abbrev pub checked_provider : List Node → Option Node → Task D String
  unfolding by_check
  checked_provider nodes none = throw undefined_provider
  checked_provider nodes (some n) =
      if disable_providers_bottleneck then pure n.url else check n.url >>= by_check nodes n.url

  -- `getProvider`, over the nodes of the blockchain.
  unfoldable pub get_provider : List Node → Task D String
  unfolding checked_provider
  get_provider nodes = do i ← random_below (length nodes); checked_provider nodes (item_at i nodes)
