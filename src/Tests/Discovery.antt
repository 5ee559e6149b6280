-- ===== src/Tests/Discovery.antt =====
-- Runs of the discoverers of pairs and of the search for internal transactions.
use block_listener.Base.{
  In, ◌≢◌, ◌↔◌, ℕ, String, Bool, true, false, ◌≡◌, refl, ◌===◌, string_eq, List, [], ◌∷◌, none,
  some, if◌then◌else◌, ltb, ◌<◌, ap, inl, inr, Option-cases, arith,
}
use block_listener.Base.Task.{returns}
use block_listener.Values.{BlockchainId, ContractType}
use block_listener.Entities.Token.{TokenProps}
use block_listener.Rabbitmq.Objects.{Object, lookup}
use block_listener.Utils.Address.{to_lower_case}
use block_listener.Pairs.{Factory}
use block_listener.Pairs.Full
use block_listener.Pairs.Selective
use block_listener.Pairs.Selective.{PairAndTokens, tokens_of, skip_pair}
use block_listener.Pairs.Missing.{last_new_pairs, fetch_missing_pairs_lem}
use block_listener.Pairs.Bases.{IsPairOf}
use block_listener.Pairs.Candidates.{finds, fetch_missing_pairs-finds}
use block_listener.UseCases.FindInternalTx
use block_listener.UseCases.FindInternalTx.{StoredContract, abi}
use block_listener.UseCases.FindInternalTx.Range.{execute-announces_nothing}
use block_listener.App.{App}

abbrev factory_at : String → Factory
factory_at address = record { blockchain = BlockchainId.ethereum; address = address; dex = "sushi" }

-- Two factories of one exchange: the first has three pairs and the second four, of which two are
-- stored. An address is that of its factory and the index.
abbrev two_factories : List Factory
two_factories = factory_at "f" ∷ factory_at "g" ∷ []

abbrev pairs_length : Factory → ℕ
pairs_length f = if f.address === "f" then 3 else 4

abbrev full : Full.Deps (Unit {0})
full = record {
  find_factories = returns two_factories;
  count_dex_pairs = λ dex b. returns 2;
  save_many = λ l. returns 0;
  get_provider = λ b. returns tt;
  all_pairs_length = λ f. returns (pairs_length f);
  all_pairs = λ f i. returns f.address;
  token0 = λ b a. returns "t";
  token1 = λ b a. returns "u";
  symbol = λ b a. returns a;
  to_hex = λ n. "";
  create = λ p. some p;
  now = 5;
}

fetch_missing_pairs_lem_example :
    (found : Object (List String)) × (Full.fetch_missing_pairs full BlockchainId.ethereum
        two_factories tt
      ≡ returns found tt)
    × ((dex : String)
        → lookup dex found
          ≡ last_new_pairs (λ d. 2) pairs_length (λ f i. f.address) dex none two_factories)
fetch_missing_pairs_lem_example =
    fetch_missing_pairs_lem full BlockchainId.ethereum (λ d. 2) pairs_length (λ f i. f.address)
      (λ dex d. refl) (λ f d. refl) (λ f i d. refl) two_factories tt refl

abbrev token : String → Bool → TokenProps
token address base = record {
  address = address;
  blockchain = BlockchainId.ethereum;
  symbol = "T";
  name = "t";
  decimals = 18;
  use_as_base_for_pair_discovery = base;
  is_stable = false;
  is_native_wrapped = false;
  logo_urls = none;
}

abbrev three_tokens : List TokenProps
three_tokens = token "w" true ∷ token "a" false ∷ token "b" false ∷ []

-- The pair of a token has its address; that of `b` is stored.
abbrev selective : Selective.Deps (Unit {0})
selective = record {
  find_factories = returns (factory_at "f" ∷ []);
  find_pairs = λ b. returns ("B" ∷ []);
  find_tokens = returns three_tokens;
  save_many = λ l. returns 0;
  get_provider = λ b. returns tt;
  get_pair = λ f base other. returns other;
  zero_address = "0";
  create = λ p. some p;
  now = 5;
}

fetch_missing_pairs-finds_example :
    (found : List PairAndTokens) × (Selective.fetch_missing_pairs selective three_tokens
        BlockchainId.ethereum
        (factory_at "f" ∷ [])
        tt
      ≡ returns (("sushi", found) ∷ []) tt)
    × ((address : String)
        → (finds address found ≡ true) ↔ (
            IsPairOf (λ base other. other) three_tokens BlockchainId.ethereum address
            × (address ≢ "0")
            × ((pair : String) → In pair ("B" ∷ []) → to_lower_case pair ≢ to_lower_case address)))
fetch_missing_pairs-finds_example =
    fetch_missing_pairs-finds selective (factory_at "f") (λ base other. other)
      (λ base other d. refl) ("B" ∷ []) three_tokens BlockchainId.ethereum tt refl refl

skips_stored : skip_pair selective "b" ("B" ∷ []) ≡ true
unfolding skip_pair
skips_stored = refl

abbrev contract : StoredContract String
contract = record {
  address = "c";
  blockchain = BlockchainId.ethereum;
  type = ContractType.token_erc20;
  custom_abi = none;
}

-- A node with an event in every range that does not end before it begins.
abbrev events_in : ℕ → ℕ → List String
events_in from to = if ltb to from then [] else "0x1" ∷ []

abbrev searching : FindInternalTx.Deps String (Unit {0})
searching = record {
  type_abi = λ t. some "erc20";
  find_all = returns (contract ∷ []);
  get_provider = λ b. returns tt;
  query_filter = λ b address a from to. returns (events_in from to);
  publish_error = λ m d. none;
}

has_abi : (c : StoredContract String) → (a : String) × (abi searching.type_abi c ≡ some a)
has_abi c = elim (Option-cases c.custom_abi) [
  | inl custom ↦ ("erc20", ground (arith, custom))
  | inr (a, custom) ↦ (a, ground (arith, custom))
]

events_in-empty : (from to : ℕ) → to < from → events_in from to ≡ []
events_in-empty from to h = ground arith

abbrev no_effects : App (Unit {0})
no_effects = record { db = tt; effects = [] }

execute-announces_nothing_example :
    FindInternalTx.execute searching 150 BlockchainId.ethereum no_effects ≡ returns tt no_effects
execute-announces_nothing_example =
    execute-announces_nothing searching has_abi (λ b d. refl)
      (λ b address a from to d h. ap (λ l. returns l d) (events_in-empty from to h)) 150
      BlockchainId.ethereum (contract ∷ []) no_effects tt refl
