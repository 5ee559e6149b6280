-- ===== src/Entities/Token.antt =====
-- App/Entities/Token.ts, Contract.ts and Block.ts
use block_listener.Base.{
  ℕ, String, Bool, List, [], ◌∷◌, ◌++◌, ◌===◌, string_eq, any, if◌then◌else◌, Option, none, some,
}
use block_listener.Values.{BlockchainId, ContractType}

pub record TokenProps : Type 0 where
  pub address : String
  pub blockchain : BlockchainId
  pub symbol : String
  pub name : String
  pub decimals : ℕ
  pub use_as_base_for_pair_discovery : Bool
  pub is_stable : Bool
  pub is_native_wrapped : Bool
  pub logo_urls : Option (List String)

abbrev pub urls : Option (List String) → List String
urls none = []
urls (some us) = us

-- `trim` is that of the text library.
unfoldable pub add_logo : (String → String) → String → TokenProps → TokenProps
add_logo trim url t =
    let u = trim url in
    record t {
      logo_urls = some (
          if any (λ v. v === u) (urls t.logo_urls)
          then urls t.logo_urls
          else urls t.logo_urls ++ u ∷ []);
    }

pub record ContractProps : Type 0 where
  pub blockchain : BlockchainId
  pub address : String
  pub alias : Option String
  pub type : ContractType
  pub created_at : ℕ

pub record BlockProps : Type 0 where
  pub height : String
  pub blockchain : BlockchainId
  pub timestamp : ℕ
