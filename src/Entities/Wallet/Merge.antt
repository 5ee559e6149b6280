-- ===== src/Entities/Wallet/Merge.antt =====
-- Wallet.ts: what `addTag` and `addRelation` make of a wallet's tags and relations.
use mathlib.Core.Path.{ap₂}
use mathlib.Core.Bool.{and-eq-true_iff}
use block_listener.Base.{
  ℕ, String, ◌≡◌, refl, sym, ◌∙◌, ap, ◌≤◌, Bool, true, ◌||◌, ◌&&◌, ◌===◌, string_eq, any, count_if,
  List, [], ◌∷◌, arith, any-push_unless, count_if-push_unless, push_unless, eq_iff,
}
use block_listener.Values.{
  WalletTagName, AddressRelationType, tag_eq, relation_eq, tag_beq_iff, relation_beq_iff,
}
use block_listener.Entities.Wallet.{
  AddressRelation, NewRelation, WalletTag, Wallet, same_relation, same_tag, TagArg, by_name,
  by_value, new_tag, add_relation, add_tag, add_each,
}

abbrev pub has_tag : WalletTagName → Wallet → Bool
has_tag t w = any (same_tag t) w.props.tags

abbrev pub has_relation : String → AddressRelationType → Wallet → Bool
has_relation a k w = any (same_relation a k) w.props.relations

-- No tag twice, and no relation to one address twice.
pub record IsMerged (w : Wallet) : Type 0 where
  pub tags_once : (t : WalletTagName) → count_if (same_tag t) w.props.tags ≤ 1
  pub relations_once :
      (a : String) (k : AddressRelationType) → count_if (same_relation a k) w.props.relations ≤ 1

abbrev pub names : TagArg → WalletTagName
names arg = (new_tag 0 arg).tag

module _ (x : WalletTag) (t : WalletTagName) (tags : List WalletTag) where
  same_tag-eq : same_tag t x ≡ true → any (same_tag t) tags ≡ any (same_tag x.tag) tags
  same_tag-eq h = ap (λ u. any (same_tag u) tags) (sym ((tag_beq_iff x.tag t).0 h))

  has_tag-push :
      any (same_tag t) (push_unless (same_tag x.tag) x tags)
      ≡ (any (same_tag t) tags || x.tag === t)
  has_tag-push = any-push_unless (same_tag x.tag) (same_tag t) x tags (λ old h. same_tag-eq h ∙ old)

  count-push_tag :
      count_if (same_tag t) tags ≤ 1
      → count_if (same_tag t) (push_unless (same_tag x.tag) x tags) ≤ 1
  count-push_tag = count_if-push_unless (same_tag x.tag) (same_tag t) x tags same_tag-eq

module _ (x : AddressRelation) (a : String) (k : AddressRelationType)
    (rs : List AddressRelation) where
  same_relation-eq :
      same_relation a k x ≡ true
      → any (same_relation a k) rs ≡ any (same_relation x.address x.type) rs
  same_relation-eq h =
      let (p, q) = (and-eq-true_iff _ _).0 h in
      ap₂ (λ b l. any (same_relation b l) rs) (sym ((eq_iff x.address a).0 p))
        (sym ((relation_beq_iff x.type k).0 q))

  has_relation-push :
      any (same_relation a k) (push_unless (same_relation x.address x.type) x rs)
      ≡ (any (same_relation a k) rs || (x.address === a && x.type === k))
  has_relation-push =
      any-push_unless (same_relation x.address x.type) (same_relation a k) x rs
        (λ old h. same_relation-eq h ∙ old)

  count-push_relation :
      count_if (same_relation a k) rs ≤ 1
      → count_if (same_relation a k) (push_unless (same_relation x.address x.type) x rs) ≤ 1
  count-push_relation =
      count_if-push_unless (same_relation x.address x.type) (same_relation a k) x rs
        same_relation-eq

pub has_tag-add_tag :
    (now : ℕ) (arg : TagArg) (t : WalletTagName) (w : Wallet)
    → has_tag t (add_tag now arg w) ≡ (has_tag t w || names arg === t)
unfolding add_tag
has_tag-add_tag now (by_name tag) t w = has_tag-push _ t w.props.tags
has_tag-add_tag now (by_value tag c) t w = has_tag-push _ t w.props.tags

pub has_relation-add_relation :
    (now : ℕ) (r : NewRelation) (a : String) (k : AddressRelationType) (w : Wallet)
    → has_relation a k (add_relation now r w)
      ≡ (has_relation a k w || (r.address === a && r.type === k))
unfolding add_relation
has_relation-add_relation now r a k w = has_relation-push _ a k w.props.relations

pub add_tag-IsMerged :
    (now : ℕ) (arg : TagArg) (w : Wallet) → IsMerged w → IsMerged (add_tag now arg w)
unfolding add_tag
add_tag-IsMerged now arg w v = record {
  tags_once = λ t. count-push_tag (new_tag now arg) t w.props.tags (v.tags_once t);
  relations_once = v.relations_once;
}

pub add_relation-IsMerged :
    (now : ℕ) (r : NewRelation) (w : Wallet) → IsMerged w → IsMerged (add_relation now r w)
unfolding add_relation
add_relation-IsMerged now r w v = record {
  tags_once = v.tags_once;
  relations_once = λ a k. count-push_relation _ a k w.props.relations (v.relations_once a k);
}

pub has_tag-add_relation :
    (now : ℕ) (r : NewRelation) (t : WalletTagName) (w : Wallet)
    → has_tag t (add_relation now r w) ≡ has_tag t w
unfolding add_relation
has_tag-add_relation now r t w = refl

pub has_relation-add_tag :
    (now : ℕ) (arg : TagArg) (a : String) (k : AddressRelationType) (w : Wallet)
    → has_relation a k (add_tag now arg w) ≡ has_relation a k w
unfolding add_tag
has_relation-add_tag now arg a k w = refl

-- `xs.forEach((x) => wallet.add(x))` keeps what each step keeps, and has what any step adds.
module _ {A : Type 0} (add : A → Wallet → Wallet) where
  pub add_each-keeps {ℓ} :
      (Q : Wallet → Type ℓ)
      → ((x : A) (w : Wallet) → Q w → Q (add x w))
      → (xs : List A) (w : Wallet) → Q w
      → Q (add_each add xs w)
  add_each-keeps Q step [] w q = q
  add_each-keeps Q step (x ∷ xs) w q = add_each-keeps Q step xs (add x w) (step x w q)

  pub add_each-same {ℓ} :
      {B : Type ℓ} (f : Wallet → B)
      → ((x : A) (w : Wallet) → f (add x w) ≡ f w)
      → (xs : List A) (w : Wallet) → f (add_each add xs w) ≡ f w
  add_each-same f step [] w = refl
  add_each-same f step (x ∷ xs) w = add_each-same f step xs (add x w) ∙ step x w

  pub add_each-any :
      (f : Wallet → Bool) (p : A → Bool)
      → ((x : A) (w : Wallet) → f (add x w) ≡ (f w || p x))
      → (xs : List A) (w : Wallet) → f (add_each add xs w) ≡ (f w || any p xs)
  add_each-any f p step [] w = ground arith
  add_each-any f p step (x ∷ xs) w = ground (arith, add_each-any f p step xs (add x w), step x w)
