-- ===== src/Providers/Choice.antt =====
-- ProviderFactory.ts: which provider is chosen.
use block_listener.Base.{
  ℕ, zero, suc, ◌<◌, String, Bool, true, false, any, List, [], ◌∷◌, map, some, eq_iff,
  if◌then◌else◌, get_or, ◌===◌, string_eq, ◌≡◌, ◌⊎◌, refl, ◌∙◌, ap, inl, inr, Option-cases,
  Bool-cases, arith,
}
use block_listener.Base.Segments.{length}
use block_listener.Base.Task.{returns, Task, promise_all}
use block_listener.Base.Runs.{returns->>=}
use block_listener.Providers.{
  JsonRpcConfig, Node, validated, enabled_nodes, prepare_node_list, item_at, provider_status,
  available_or, by_check, checked_provider, get_provider,
}

-- A node has the URL.
abbrev pub has_url : String → List Node → Bool
has_url url nodes = any (λ n. n.url === url) nodes

-- A configuration that is not disabled has the URL.
abbrev pub is_enabled_url : String → List JsonRpcConfig → Bool
is_enabled_url url cfgs = any (λ c. if get_or c.disabled false then false else c.url === url) cfgs

has_url-enabled :
    (url : String) (cfgs valids : List JsonRpcConfig)
    → validated cfgs ≡ some valids
    → has_url url (enabled_nodes valids) ≡ is_enabled_url url cfgs
has_url-enabled url [] valids ok = ground (arith, ok)
has_url-enabled url (c ∷ cfgs) valids ok = elim (Option-cases (validated cfgs)) [
  | inl bad ↦ ground (arith, ok, bad)
  | inr (vs, good) ↦ elim (Bool-cases (c.url === "")) [
    | inl empty ↦ ground (arith, ok, good, empty)
    | inr full ↦ ground (arith, ok, good, full, has_url-enabled url cfgs vs good)
  ]
]

enabled_of_has_url :
    (url : String) (cfgs : List JsonRpcConfig) (nodes : List Node)
    → prepare_node_list cfgs ≡ some nodes
    → has_url url nodes ≡ true
    → is_enabled_url url cfgs ≡ true
unfolding prepare_node_list
enabled_of_has_url url cfgs nodes configured there = elim (Option-cases (validated cfgs)) [
  | inl bad ↦ ground (arith, configured, bad)
  | inr (valids, good) ↦
      ground (arith, configured, good, there, has_url-enabled url cfgs valids good)
]

same_truth : (a b : Bool) → (a ≡ true → b ≡ true) → (b ≡ true → a ≡ true) → a ≡ b
same_truth a b to from = ground arith

free_of_has_url :
    (available : String → Bool) (url : String) (nodes : List Node)
    → has_url url nodes ≡ true
    → available url ≡ true
    → any (λ n. available n.url) nodes ≡ true
free_of_has_url available url [] there free = ground (arith, there)
free_of_has_url available url (n ∷ nodes) there free =
    ground (arith, there, free, eq_iff n.url url, free_of_has_url available url nodes)

item_at_lem :
    (i : ℕ) (nodes : List Node)
    → i < length nodes
    → (n : Node) × (item_at i nodes ≡ some n) × (has_url n.url nodes ≡ true)
item_at_lem i [] h = ground (arith, h)
item_at_lem zero (n ∷ nodes) h = (n, refl, ground (arith, (string_eq.beq_iff n.url n.url).1 refl))
item_at_lem (suc i) (m ∷ nodes) h =
    let (n, found, there) = item_at_lem i nodes (omega (arith, h)) in
    (n, found, ground (arith, there))

abbrev pub statuses_of : (String → Bool) → List Node → List (String × Bool)
statuses_of available nodes = map (λ n. (n.url, available n.url)) nodes

available_or_lem :
    (available : String → Bool) (r : String) (nodes : List Node)
    → ((available_or r (statuses_of available nodes) ≡ r)
        × (any (λ n. available n.url) nodes ≡ false))
      ⊎ ((available (available_or r (statuses_of available nodes)) ≡ true)
          × (has_url (available_or r (statuses_of available nodes)) nodes ≡ true))
available_or_lem available r [] = inl (refl, refl)
available_or_lem available r (n ∷ nodes) = elim (Bool-cases (available n.url)) [
  | inl free ↦
      inr (ground (arith, free), ground (arith, free, (string_eq.beq_iff n.url n.url).1 refl))
  | inr busy ↦ elim (available_or_lem available r nodes) [
    | inl (same, none_free) ↦ inl (ground (arith, busy, same), ground (arith, busy, none_free))
    | inr (free, there) ↦ inr (ground (arith, busy, free), ground (arith, busy, there))
  ]
]

module _ {D : Type 0} (check : String → Task D Bool) (available : String → Bool)
    (checks : (url : String) (s : D) → check url s ≡ returns (available url) s) where
  statuses_lem :
      (nodes : List Node) (s : D)
      → promise_all (provider_status check) nodes s ≡ returns (statuses_of available nodes) s
  unfolding promise_all
  statuses_lem [] s = refl
  statuses_lem (n ∷ nodes) s = ground (arith, checks n.url s, statuses_lem nodes s)

  by_check_lem :
      (random_below : ℕ → Task D ℕ) (nodes : List Node) (r : String) (s : D)
      → by_check check random_below false nodes r false s
        ≡ returns (available_or r (statuses_of available nodes)) s
  unfolding by_check
  by_check_lem random_below nodes r s =
      returns->>= (promise_all (provider_status check) nodes)
        (λ statuses t. returns (available_or r statuses) t) s s (statuses_of available nodes)
        (statuses_lem nodes s)

  chosen_lem :
      (nodes : List Node) (n : Node)
      → has_url n.url nodes ≡ true
      → available n.url ≡ false
      → (has_url (available_or n.url (statuses_of available nodes)) nodes ≡ true)
        × (any (λ m. available m.url) nodes ≡ true
            → available (available_or n.url (statuses_of available nodes)) ≡ true)
  chosen_lem nodes n there busy = elim (available_or_lem available n.url nodes) [
    | inl (same, none_free) ↦
        (ap (λ u. has_url u nodes) same ∙ there, λ some_free. ground (arith, none_free, some_free))
    | inr (free, found) ↦ (found, λ some_free. free)
  ]

  checked_provider_lem :
      (random_below : ℕ → Task D ℕ) (nodes : List Node) (n : Node) (t : D)
      → has_url n.url nodes ≡ true
      → (url : String) × (checked_provider check random_below false nodes (some n) t
          ≡ returns url t)
        × (has_url url nodes ≡ true)
        × (any (λ m. available m.url) nodes ≡ true → available url ≡ true)
  unfolding checked_provider
  checked_provider_lem random_below nodes n t there =
      let asked =
        returns->>= (check n.url) (by_check check random_below false nodes n.url) t t
          (available n.url) (checks n.url t) in
      elim (Bool-cases (available n.url)) [
        | inl free ↦ (
          n.url,
          asked ∙ ap (λ b. by_check check random_below false nodes n.url b t) free ∙ refl,
          there,
          λ some_free. free,
        )
        | inr busy ↦
            let (found, best) = chosen_lem nodes n there busy in
            (
              available_or n.url (statuses_of available nodes),
              asked
                  ∙ ap (λ b. by_check check random_below false nodes n.url b t) busy
                  ∙ by_check_lem random_below nodes n.url t,
              found,
              best,
            )
      ]

  pub get_provider-available :
      (random_below : ℕ → Task D ℕ) (cfgs : List JsonRpcConfig) (nodes : List Node) (i : ℕ)
      (s t : D)
      → prepare_node_list cfgs ≡ some nodes
      → random_below (length nodes) s ≡ returns i t
      → i < length nodes
      → (url : String) × (get_provider check random_below false nodes s ≡ returns url t)
        × (is_enabled_url url cfgs ≡ true)
        × (available url ≡ any (λ n. available n.url) nodes)
  unfolding get_provider
  get_provider-available random_below cfgs nodes i s t configured drawn below =
      let (n, drawn_node, there) = item_at_lem i nodes below in
      let (url, asked, found, best) = checked_provider_lem random_below nodes n t there in
      (
        url,
        returns->>= (random_below (length nodes))
              (λ j. checked_provider check random_below false nodes (item_at j nodes)) s t i drawn
            ∙ ap (λ o. checked_provider check random_below false nodes o t) drawn_node
            ∙ asked,
        enabled_of_has_url url cfgs nodes configured found,
        same_truth (available url) (any (λ n. available n.url) nodes)
            (free_of_has_url available url nodes found) best,
      )
