-- ===== src/Tests/Broker.antt =====
-- Runs of the broker's configuration and client.
use block_listener.Base.{
  ℕ, String, ◌≡◌, refl, Option, none, string_eq, any, is_some, ◌===◌, true, false, [], ◌∷◌,
}
use block_listener.Base.Task.{returns, Task}
use block_listener.Utils.Address.{to_lower_case}
use block_listener.Executor.Backoff.{backoff_default_strategy}
use block_listener.Rabbitmq.Objects.{lookup, replace_first}
use block_listener.Rabbitmq.{vhost_config}
use block_listener.Startup.{consumers, all_in_one, revive_dead_msgs, blocklistener}
use block_listener.Startup.Wiring.{channels, consumers-vhost_config}

third_delay : backoff_default_strategy 3 ≡ 27627
unfolding backoff_default_strategy
third_delay = refl

lower : to_lower_case "0xAbC9" ≡ "0xabc9"
unfolding to_lower_case
lower = refl

replace_once : replace_first "_dead_a_dead_" "_dead_" "" ≡ "a_dead_"
unfolding replace_first
replace_once = refl

consumers-vhost_config_example :
    any (λ c. c === "_retry_save_token") (channels consumers)
    ≡ is_some (lookup "_retry_save_token" (vhost_config "amqp://rabbit").subscriptions)
consumers-vhost_config_example = consumers-vhost_config "amqp://rabbit" "_retry_save_token"

-- The consumers start the recovery of a dead channel, and the single process does not.
dead_channels_by_process :
    (any (λ c. c === "_dead_save_token") (channels consumers) ≡ true)
    × (any (λ c. c === "_dead_save_token") (channels (all_in_one false false)) ≡ false)
    × (channels (revive_dead_msgs "SaveToken") ≡ "_dead_save_token" ∷ [])
    × (channels (blocklistener false) ≡ [])
unfolding consumers all_in_one revive_dead_msgs blocklistener
dead_channels_by_process = (refl, refl, refl, refl)

abbrev no_queue_len : String → Task ℕ (Option ℕ)
no_queue_len name n = returns none n
