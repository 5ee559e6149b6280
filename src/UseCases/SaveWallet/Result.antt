-- ===== src/UseCases/SaveWallet/Result.antt =====
-- SaveWallet.ts: the wallet that is stored, and the order of what is stored and sent.
use block_listener.Base.{
  ℕ, String, ◌≡◌, refl, ap, ◌∙◌, ◌||◌, ◌&&◌, ◌===◌, string_eq, any, List, [], ◌∷◌, map, Option,
  none, some, arith,
}
use block_listener.Values.{WalletType, WalletTagName, AddressRelationType, tag_eq, relation_eq}
use block_listener.Entities.Wallet.{
  Wallet, NewRelation, same_tag, same_relation, by_name, add_tag, add_relation, add_each, set_type,
  set_alias,
}
use block_listener.Entities.Wallet.Merge.{
  has_tag, has_relation, IsMerged, names, has_tag-add_tag, has_relation-add_relation,
  add_tag-IsMerged, add_relation-IsMerged, has_tag-add_relation, has_relation-add_tag,
  add_each-keeps, add_each-same, add_each-any,
}
use block_listener.UseCases.SaveWallet.{Deps, typed, aliased, updated}

any-map-names :
    (t : WalletTagName) (ts : List WalletTagName)
    → any (λ x. names x === t) (map by_name ts) ≡ any (λ x. x === t) ts
any-map-names t [] = refl
any-map-names t (x ∷ ts) = ground (arith, any-map-names t ts)

module _ (now : ℕ) (tags : List WalletTagName) (relations : List NewRelation) (v : Wallet) where
  abbrev with_relations : Wallet
  with_relations = add_each (add_relation now) relations v

  abbrev with_both : Wallet
  with_both = add_each (add_tag now) (map by_name tags) with_relations

  has_tag-with_both :
      (t : WalletTagName) → has_tag t with_both ≡ (has_tag t v || any (λ x. x === t) tags)
  has_tag-with_both t =
      rw
        (add_each-any (add_tag now) (has_tag t) (λ x. names x === t)
          (λ x u. has_tag-add_tag now x t u) (map by_name tags) with_relations)
        (rw
          (add_each-same (add_relation now) (has_tag t) (λ r u. has_tag-add_relation now r t u)
            relations v)
          (ap (λ b. has_tag t v || b) (any-map-names t tags)))

  has_relation-with_both :
      (a : String) (k : AddressRelationType)
      → has_relation a k with_both
        ≡ (has_relation a k v || any (λ r. r.address === a && r.type === k) relations)
  has_relation-with_both a k =
      add_each-same (add_tag now) (has_relation a k) (λ x u. has_relation-add_tag now x a k u)
        (map by_name tags) with_relations
      ∙ add_each-any (add_relation now) (has_relation a k) (λ r. r.address === a && r.type === k)
          (λ r u. has_relation-add_relation now r a k u) relations v

  IsMerged-with_both : IsMerged v → IsMerged with_both
  IsMerged-with_both h =
      add_each-keeps (add_tag now) IsMerged (λ x u. add_tag-IsMerged now x u) (map by_name tags)
        with_relations
        (add_each-keeps (add_relation now) IsMerged (λ r u. add_relation-IsMerged now r u) relations
          v h)

-- Setting the type and the alias leaves the tags and the relations.
start_same :
    (type : Option WalletType) (alias : Option String) (w : Wallet)
    → ((aliased alias (typed type w)).props.tags ≡ w.props.tags)
      × ((aliased alias (typed type w)).props.relations ≡ w.props.relations)
unfolding set_type set_alias
start_same none none w = (refl, refl)
start_same none (some a) w = (refl, refl)
start_same (some t) none w = (refl, refl)
start_same (some t) (some a) w = (refl, refl)

module _ {D : Type 0} (deps : Deps D) (w : Wallet) (tags : List WalletTagName)
    (relations : List NewRelation) (type : Option WalletType) (alias : Option String) where
  start-IsMerged : IsMerged w → IsMerged (aliased alias (typed type w))
  start-IsMerged h = record {
    tags_once = λ t. rw ((start_same type alias w).0) (h.tags_once t);
    relations_once = λ a k. rw ((start_same type alias w).1) (h.relations_once a k);
  }

  -- The updated wallet has the tags that it had and those of the message and no others, and the
  -- same of its relations.
  pub updated_lem :
      ((t : WalletTagName)
        → has_tag t (updated deps w tags relations type alias)
          ≡ (has_tag t w || any (λ x. x === t) tags))
      × ((a : String) (k : AddressRelationType)
          → has_relation a k (updated deps w tags relations type alias)
            ≡ (has_relation a k w || any (λ r. r.address === a && r.type === k) relations))
  unfolding updated
  updated_lem =
      let v = aliased alias (typed type w) in
      (
        λ t.
            has_tag-with_both deps.now tags relations v t
            ∙ ap (λ l. any (same_tag t) l || any (λ x. x === t) tags) (start_same type alias w).0,
        λ a k.
            has_relation-with_both deps.now tags relations v a k
            ∙ ap
                (λ l.
                  any (same_relation a k) l || any (λ r. r.address === a && r.type === k) relations)
                (start_same type alias w).1,
      )

  -- If a wallet has no tag twice and no relation to one address twice, the updated wallet has none
  -- twice either, also where the message repeats them.
  pub updated-IsMerged : IsMerged w → IsMerged (updated deps w tags relations type alias)
  unfolding updated
  updated-IsMerged h =
      IsMerged-with_both deps.now tags relations (aliased alias (typed type w)) (start-IsMerged h)
