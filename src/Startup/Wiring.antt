-- ===== src/Startup/Wiring.antt =====
-- The entry points against the vhost of ConfigCreation.ts.
use block_listener.Base.{
  String, Bool, true, false, any, is_some, ◌&&◌, List, [], ◌∷◌, ◌≡◌, refl, sym, ◌∙◌, inl, inr,
  Bool-cases, ◌===◌, string_eq, eq_iff, arith,
}
use block_listener.Rabbitmq.{vhost_config}
use block_listener.Rabbitmq.Objects.{Object, lookup}
use block_listener.Startup.{Started, adapter, app, subscribed, every_day, playground, consumers}

-- The channels that are subscribed to, at once or every day.
abbrev pub channels : List Started → List String
channels [] = []
channels (subscribed c ∷ l) = c ∷ channels l
channels (every_day c ∷ l) = c ∷ channels l
channels (adapter a ∷ l) = channels l
channels (app a ∷ l) = channels l
channels (playground ∷ l) = channels l

abbrev keys : {V : Type 0} → Object V → List String
keys [] = []
keys ((k, v) ∷ object) = k ∷ keys object

lookup-keys :
    {V : Type 0} (c : String) (object : Object V)
    → is_some (lookup c object) ≡ any (λ k. k === c) (keys object)
unfolding lookup
lookup-keys c [] = refl
lookup-keys c ((k, v) ∷ object) = ground (arith, lookup-keys c object)

-- Every member of the first list is one of the second.
abbrev is_within : List String → List String → Bool
is_within [] ys = true
is_within (x ∷ xs) ys = any (λ y. y === x) ys && is_within xs ys

is_within-any :
    (xs ys : List String) (c : String)
    → is_within xs ys ≡ true
    → any (λ x. x === c) xs ≡ true
    → any (λ y. y === c) ys ≡ true
is_within-any [] ys c h m = cc
is_within-any (x ∷ xs) ys c h m = elim (Bool-cases (x === c)) [
  | inl same ↦ let e : x ≡ c = (eq_iff x c).0 same in rw (← e) (ground (arith, h))
  | inr other ↦ is_within-any xs ys c (ground (arith, h)) (ground (arith, m, other))
]

iff_eq : (a b : Bool) → (a ≡ true → b ≡ true) → (b ≡ true → a ≡ true) → a ≡ b
iff_eq true b f g = sym (f refl)
iff_eq false true f g = g refl
iff_eq false false f g = refl

-- The consumers subscribe, at once or every day, to exactly the subscriptions of the vhost: to no
-- channel that it does not have, and no subscription of it is left without a consumer.
pub consumers-vhost_config :
    (uri channel : String)
    → any (λ c. c === channel) (channels consumers)
      ≡ is_some (lookup channel (vhost_config uri).subscriptions)
unfolding consumers vhost_config
consumers-vhost_config uri channel =
    let subs = keys (vhost_config uri).subscriptions in
    iff_eq (any (λ c. c === channel) (channels consumers)) (any (λ c. c === channel) subs)
      (is_within-any (channels consumers) subs channel refl)
      (is_within-any subs (channels consumers) channel refl)
    ∙ sym (lookup-keys channel (vhost_config uri).subscriptions)
