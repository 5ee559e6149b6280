-- ===== src/Rabbitmq/Topology.antt =====
-- ConfigCreation.ts: what the publications and subscriptions of the vhost connect.
use block_listener.Base.{String, ◌≡◌, refl, ◌===◌, string_eq, if◌then◌else◌, Option, none, some}
use block_listener.Executor.Channels.{add_retry_prefix, add_dead_prefix, add_direct_pub_prefix}
use block_listener.Rabbitmq.Names.{Subscription, subscription_name, queue_name}
use block_listener.Rabbitmq.Objects.{lookup}
use block_listener.Rabbitmq.{Target, to_queue, subscription_queue, vhost_config}

module _ (uri : String) where
  abbrev pub publication_of : String → Option Target
  publication_of name = lookup name (vhost_config uri).publications

  -- What is published under a subscription's retry or dead channel goes to the queue that the
  -- subscription of that channel reads.
  pub retry_dead_connected :
      (s : Subscription)
      → let q = queue_name (subscription_queue s) in
        let subs = (vhost_config uri).subscriptions in
        (publication_of (add_retry_prefix (subscription_name s))
          ≡ some (to_queue (add_retry_prefix q)))
        × (lookup (add_retry_prefix (subscription_name s)) subs
            ≡ some (record { queue = some (add_retry_prefix q); prefetch = none }))
        × (publication_of (add_dead_prefix (subscription_name s))
            ≡ some (to_queue (add_dead_prefix q)))
        × (lookup (add_dead_prefix (subscription_name s)) subs
            ≡ some (record { queue = some (add_dead_prefix q); prefetch = none }))
  unfolding vhost_config lookup
  retry_dead_connected Subscription.discovered_tx_to_process = (refl, refl, refl, refl)
  retry_dead_connected Subscription.tx_processed = (refl, refl, refl, refl)
  retry_dead_connected Subscription.save_token = (refl, refl, refl, refl)
  retry_dead_connected Subscription.save_wallet = (refl, refl, refl, refl)

  -- The process channel of a subscription is published to its queue exactly where the subscription
  -- and the queue have one name. For the others it is no publication at all.
  pub direct_iff_same_name :
      (s : Subscription)
      → let q = queue_name (subscription_queue s) in
        publication_of (add_direct_pub_prefix (subscription_name s))
        ≡ (if subscription_name s === q then some (to_queue q) else none)
  unfolding vhost_config lookup
  direct_iff_same_name Subscription.discovered_tx_to_process = refl
  direct_iff_same_name Subscription.tx_processed = refl
  direct_iff_same_name Subscription.save_token = refl
  direct_iff_same_name Subscription.save_wallet = refl
