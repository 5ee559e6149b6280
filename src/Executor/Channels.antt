-- ===== src/Executor/Channels.antt =====
-- The channel prefixes of Infrastructure/Broker/Rabbitmq/Utils/ConfigCreation.ts.
use Prim.Native.String.{◌++◌}
use block_listener.Base.{String, ◌≢◌, arith, eq_iff}
use text.Mathlib.TextLemmas.{append_cancel_right}

abbrev pub retry_prefix : String
retry_prefix = "_retry_"

abbrev pub dead_prefix : String
dead_prefix = "_dead_"

abbrev pub direct_pub_prefix : String
direct_pub_prefix = "_direct_"

unfoldable pub add_retry_prefix : String → String
add_retry_prefix name = retry_prefix ++ name

unfoldable pub add_direct_pub_prefix : String → String
add_direct_pub_prefix name = direct_pub_prefix ++ name

unfoldable pub add_dead_prefix : String → String
add_dead_prefix name = dead_prefix ++ name

-- Two prefixes that give one channel are equal.
pub retry-ne-dead : (c : String) → add_retry_prefix c ≢ add_dead_prefix c
unfolding add_retry_prefix add_dead_prefix
retry-ne-dead c e =
    ground
      (arith, eq_iff retry_prefix dead_prefix, append_cancel_right retry_prefix dead_prefix c e)

pub retry-ne-direct : (c : String) → add_retry_prefix c ≢ add_direct_pub_prefix c
unfolding add_retry_prefix add_direct_pub_prefix
retry-ne-direct c e = ground (
  arith,
  eq_iff retry_prefix direct_pub_prefix,
  append_cancel_right retry_prefix direct_pub_prefix c e,
)

pub dead-ne-direct : (c : String) → add_dead_prefix c ≢ add_direct_pub_prefix c
unfolding add_dead_prefix add_direct_pub_prefix
dead-ne-direct c e = ground (
  arith,
  eq_iff dead_prefix direct_pub_prefix,
  append_cancel_right dead_prefix direct_pub_prefix c e,
)
