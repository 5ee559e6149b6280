-- ===== src/Entities/Wallet.antt =====
-- App/Entities/Wallet.ts
pub mod Merge
use block_listener.Base.{
  ℕ, String, Bool, ◌&&◌, ◌===◌, string_eq, any, push_unless, get_or, List, [], ◌∷◌, ◌++◌, Option,
  none, some, if◌then◌else◌,
}
use block_listener.Values.{
  BlockchainId, WalletType, WalletTagName, AddressRelationType, tag_eq, relation_eq,
}

pub record AddressRelation : Type 0 where
  pub address : String
  pub type : AddressRelationType
  pub created_at : ℕ
  pub metadata : Option (Option String)

-- `Omit<AddressRelation, "createdAt">`, or with the date left out.
pub record NewRelation : Type 0 where
  pub address : String
  pub type : AddressRelationType
  pub created_at : Option ℕ
  pub metadata : Option (Option String)

pub record WalletTag : Type 0 where
  pub tag : WalletTagName
  pub created_at : ℕ

pub record WalletProps : Type 0 where
  pub blockchain : BlockchainId
  pub address : String
  pub alias : Option String
  pub type : WalletType
  pub tags : List WalletTag
  pub relations : List AddressRelation
  pub created_at : ℕ

pub record Wallet : Type 0 where
  pub props : WalletProps
  pub id : Option String

-- `rel.address === newRel.address && rel.type === newRel.type`
abbrev pub same_relation : String → AddressRelationType → AddressRelation → Bool
same_relation address type rel = rel.address === address && rel.type === type

unfoldable pub add_relation : ℕ → NewRelation → Wallet → Wallet
add_relation now r w = record w {
  props = record (w.props) {
    relations =
        push_unless (same_relation r.address r.type)
          (record {
            address = r.address;
            type = r.type;
            created_at = get_or r.created_at now;
            metadata = r.metadata;
          })
          w.props.relations;
  };
}

-- The argument of `addTag`: a name, or a tag whose date may be left out.
pub data TagArg : Type 0 where
  by_name : WalletTagName → TagArg
  by_value : WalletTagName → Option ℕ → TagArg

abbrev pub same_tag : WalletTagName → WalletTag → Bool
same_tag tag t = t.tag === tag

abbrev pub new_tag : ℕ → TagArg → WalletTag
new_tag now (by_name tag) = record { tag = tag; created_at = now }
new_tag now (by_value tag created_at) = record { tag = tag; created_at = get_or created_at now }

unfoldable pub add_tag : ℕ → TagArg → Wallet → Wallet
add_tag now arg w =
    let t = new_tag now arg in
    record w { props = record (w.props) { tags = push_unless (same_tag t.tag) t w.props.tags } }

unfoldable pub set_type : WalletType → Wallet → Wallet
set_type type w = record w { props = record (w.props) { type = type } }

unfoldable pub set_alias : String → Wallet → Wallet
set_alias alias w = record w { props = record (w.props) { alias = some alias } }

-- `xs.forEach((x) => wallet.add(x))`
abbrev pub add_each : {A : Type 0} → (A → Wallet → Wallet) → List A → Wallet → Wallet
add_each add [] w = w
add_each add (x ∷ xs) w = add_each add xs (add x w)
