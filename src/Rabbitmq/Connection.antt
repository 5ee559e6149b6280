-- ===== src/Rabbitmq/Connection.antt =====
-- ConfigCreation.ts: the connection of `createBrokerConnection`, over rascal's
-- `createBrokerAsPromised` and `sleep`.
use block_listener.Base.{
  ℕ, ◌+◌, ◌*◌, String, Bool, true, not, ◌||◌, leb, Option, none, some, if◌then◌else◌, ◌===◌,
  string_eq,
}
use block_listener.Base.Task.{Thrown}
use block_listener.Rabbitmq.{VhostConfig, vhost_config}

-- An error of the connection, with its `code`.
pub record ConnectionError : Type 0 where
  pub error : Thrown
  pub code : Option String

pub data Attempt (D C : Type 0) : Type 0 where
  connected : C → D → Attempt D C
  failed : ConnectionError → D → Attempt D C

-- How the connection ends: with a client, with what `sleep` gives, which is no client, or with an
-- error.
pub data Connection (D C : Type 0) : Type 0 where
  client : C → D → Connection D C
  no_client : D → Connection D C
  raised : Thrown → D → Connection D C

abbrev pub not_connection_refused : Option String → Bool
not_connection_refused none = true
not_connection_refused (some code) = if code === "" then true else not (code === "ECONNREFUSED")

abbrev pub max_connection_retries : ℕ
max_connection_retries = 120

module _ {D C : Type 0} (create_broker : VhostConfig → D → Attempt D C) (sleep : ℕ → D → D) where
  -- The body of the loop with its counter.
  abbrev pub connection_attempt : ℕ → Attempt D C → Connection D C
  connection_attempt retry (connected c d) = client c d
  connection_attempt retry (failed e d) =
      if not_connection_refused e.code || leb max_connection_retries retry
      then raised e.error d
      else no_client (sleep (1000 + retry * 1000) d)

  -- Every branch of the body leaves the loop, so that it runs once, with the counter at 2.
  unfoldable pub create_broker_connection : String → D → Connection D C
  unfolding vhost_config
  create_broker_connection uri d = connection_attempt 2 (create_broker (vhost_config uri) d)
