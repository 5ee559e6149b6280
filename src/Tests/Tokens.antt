-- ===== src/Tests/Tokens.antt =====
-- Runs of the token service and of the use cases on tokens.
use block_listener.Base.{
  ℕ, suc, String, true, false, ◌≡◌, refl, ap, subst, List, [], ◌∷◌, Option, none, some, string_eq,
  arith,
}
use block_listener.Base.Runs.{Each-nil, Each-cons}
use block_listener.Base.Task.{Task, Thrown, returns, throws}
use block_listener.Repository.SwapTokens.{get_all_tokens_found_in_swaps}
use block_listener.Values.{BlockchainId}
use block_listener.Entities.Token.{TokenProps}
use block_listener.Messages.{token_discovered}
use block_listener.Rabbitmq.Objects.{Object, lookup}
use block_listener.App.{App, sent}
use block_listener.Utils.Address.{checksumed, to_lower_case}
use block_listener.Tokens.Multicall.{ContractValue, CallReturn, Selected, select}
use block_listener.Tokens.{Deps, TokenData}
use block_listener.Tokens.Known.{IsAddress}
use block_listener.Tokens.Selection.{select_lem}
use block_listener.Tokens.Asking.{Answers, fetch_tokens_data-asks}
use block_listener.Tokens.Fallback.{fetched_token-throws}
use block_listener.Tokens.Fetch.{fetched_token, fetch_tokens_data, fetch_by_multicall, standard_key}
use block_listener.UseCases.RequeueMissingTokens as Requeue
use block_listener.UseCases.RequeueMissingTokens.{
  process_blockchain, process_all_blockchains_and_repeat,
}
use block_listener.UseCases.RequeueMissingTokens.Missing.{process_blockchain_lem}
use block_listener.UseCases.RequeueMissingTokens.Rounds.{
  process_all_blockchains_and_repeat-no_swaps,
}

abbrev weth : TokenProps
weth = record {
  address = "0xa";
  blockchain = BlockchainId.ethereum;
  symbol = "WETH";
  name = "Wrapped Ether";
  decimals = 18;
  use_as_base_for_pair_discovery = true;
  is_stable = false;
  is_native_wrapped = true;
  logo_urls = none;
}

abbrev refused : Thrown
refused = record { is_direct_to_dead = false; name = "Error"; message = "refused"; stack = "" }

-- A cache and a database that have the token, and a node that does not answer. A name is a text.
abbrev deps : Deps ℕ
deps = record {
  get_address = λ a. some a;
  find_native_wrapped = λ b d. returns (weth ∷ []) (suc d);
  find_stable = λ b d. returns [] d;
  find_tokens_by_blockchain_address = λ addresses b d. returns (weth ∷ []) d;
  find_uniswap_factory = λ b d. returns [] d;
  cache_get = λ key d. returns (some weth) d;
  cache_set = λ key t d. returns tt d;
  create_token = λ t. some t;
  create_fetched = λ t. elim t.name [ Selected.one v ↦ some weth | Selected.many vs ↦ none ];
  get_multicall_provider = λ b d. returns tt d;
  multicall = λ b calls d. throws refused d;
  get_provider = λ b d. returns tt d;
  get_pair = λ factory token0 token1 d. returns "0xp" d;
  parse_bytes32_string = λ v. some "MKR";
  property = λ v i. none;
  big_number = λ v. none;
  to_formatted = λ v decimals. v;
  divided_by = λ a b. a;
}

weth-IsAddress : IsAddress deps.get_address "0xa"
unfolding checksumed
weth-IsAddress = (refl, to_lower_case (to_lower_case "0xa"), refl)

abbrev address_of : Option TokenProps → String
address_of none = ""
address_of (some t) = t.address

deps-Answers : Answers deps
deps-Answers = record {
  cache_answers = λ key d. (
    some weth,
    d,
    refl,
    λ p e. (p, refl, subst (IsAddress deps.get_address) (ap address_of e) weth-IsAddress),
  );
  db_answers = λ addresses b d. (
    weth ∷ [],
    d,
    refl,
    Each-cons (λ t. IsAddress deps.get_address t.address) weth [] weth-IsAddress
        (Each-nil (λ t. IsAddress deps.get_address t.address)),
  );
}

fetch_tokens_data-asks_example :
    (t : ℕ) × (fetch_tokens_data deps BlockchainId.ethereum ("0xa" ∷ []) 5
      ≡ fetch_by_multicall deps BlockchainId.ethereum ("0xa" ∷ []) [] t)
unfolding checksumed
fetch_tokens_data-asks_example =
    fetch_tokens_data-asks deps deps-Answers BlockchainId.ethereum "0xa" []
      (λ x x_in. (to_lower_case x, refl)) 5

abbrev calls : List CallReturn
calls =
    record { reference = "name"; return_values = [] }
    ∷ record { reference = "decimals"; return_values = ContractValue.number 18 ∷ [] }
    ∷ []

abbrev results : Object (List CallReturn)
results = ("std_0xb", calls) ∷ ("b32_0xb", calls) ∷ []

select_lem_example :
    select results "std_0xb" ("decimals" ∷ "name" ∷ "symbol" ∷ [])
    ≡ some (some (Selected.one (ContractValue.number 18)) ∷ some (Selected.many []) ∷ none ∷ [])
unfolding lookup
select_lem_example = select_lem results "std_0xb" ("decimals" ∷ "name" ∷ "symbol" ∷ []) refl

list_name_rejected :
    (d : TokenData) (vs : List ContractValue)
    → d.name ≡ Selected.many vs
    → deps.create_fetched d ≡ none
list_name_rejected d vs h = ground (arith, h)

fetched_token-throws_example :
    (e : Thrown) × (fetched_token deps BlockchainId.ethereum {S = ℕ} results "0xb" 5 ≡ throws e 5)
unfolding lookup standard_key
fetched_token-throws_example =
    fetched_token-throws deps BlockchainId.ethereum list_name_rejected results "0xb" calls 5 refl
      refl

-- Two tokens in the swaps, of which the database has one, with capitals in its address.
abbrev requeue_deps : Requeue.Deps ℕ
requeue_deps = record {
  enabled_blockchains = BlockchainId.polygon ∷ BlockchainId.ethereum ∷ [];
  get_all_tokens_found_in_swaps = λ b d. elim b [
    | BlockchainId.polygon ↦ throws refused d
    | _ ↦ returns ("0xA" ∷ "0xc" ∷ []) d
  ];
  find_tokens_by_blockchain_address = λ addresses b d. returns (weth ∷ []) d;
  publish_error = λ m d. none;
}

abbrev idle : App ℕ
idle = record { db = 5; effects = [] }

process_blockchain_lem_example :
    process_blockchain requeue_deps BlockchainId.ethereum idle
    ≡ returns tt
        (record { db = 5; effects = sent (token_discovered BlockchainId.ethereum "0xc") ∷ [] })
unfolding to_lower_case
process_blockchain_lem_example =
    process_blockchain_lem requeue_deps BlockchainId.ethereum ("0xA" ∷ "0xc" ∷ []) (weth ∷ []) idle
      5 5 refl refl

-- No swap is stored yet.
abbrev no_swaps : BlockchainId → Task ℕ (List (BlockchainId × List String))
no_swaps b d = returns [] d

abbrev empty_deps : Requeue.Deps ℕ
empty_deps = record requeue_deps {
  get_all_tokens_found_in_swaps = get_all_tokens_found_in_swaps no_swaps;
}

empty_first : Requeue.process_blockchains empty_deps [] idle ≡ returns tt idle
unfolding Requeue.process_blockchains
empty_first = refl

process_all_blockchains_and_repeat-no_swaps_example :
    process_all_blockchains_and_repeat empty_deps 8 idle ≡ (0, idle)
process_all_blockchains_and_repeat-no_swaps_example =
    process_all_blockchains_and_repeat-no_swaps empty_deps no_swaps [] (BlockchainId.ethereum ∷ [])
      BlockchainId.polygon 7 idle idle 5 (λ c u. refl) refl empty_first refl
