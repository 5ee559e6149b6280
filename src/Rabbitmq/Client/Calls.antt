-- ===== src/Rabbitmq/Client/Calls.antt =====
-- RabbitMqClient.ts: the calls of rascal's client and of the management API.
use Prim.Native.String.{◌++◌}
use block_listener.Base.{
  ℕ, String, Bool, true, List, map, Option, ◌===◌, string_eq, if◌then◌else◌, ◌≡◌, arith,
}
use block_listener.Base.Task.{
  Thrown, returns, throws, Task, pure, throw, or_fail, ◌>>=◌, ◌>>◌, catch,
}
use block_listener.Rabbitmq.Client.{failure}

-- What the client reads of a queue.
pub record RabbitQueue : Type 0 where
  pub name : String
  pub messages : ℕ

-- `publish`, `subscribe` and `cancel` of rascal, the logger, and the text of an answer of the
-- management API with `JSON.parse`.
pub record Rascal (D P : Type 0) : Type 0 where
  pub publish : String → P → Task D (Unit {0})
  pub subscribe : String → Task D (Unit {0})
  pub cancel : String → Task D (Unit {0})
  pub log_error : String → Thrown → Task D (Unit {0})
  pub log : String → Task D (Unit {0})
  pub get_data : String → Task D String
  pub parse_queues : String → Option (List RabbitQueue)

module _ {D P : Type 0} (client : Rascal D P) where
  unfoldable pub get_all_queue_status : Task D (List (String × ℕ))
  get_all_queue_status = do
    data_text ← client.get_data "/queues/%2F"
    queues ←
        (if data_text === ""
          then throw (failure "TypeError" "res.map is not a function")
          else or_fail (failure "SyntaxError" "") (client.parse_queues data_text))
    pure (map (λ queue. (queue.name, queue.messages)) queues)

  -- `{ success: true }`
  unfoldable pub publish : String → P → Task D Bool
  publish channel payload =
      catch (client.publish channel payload)
        (λ error. client.log_error channel error >> throw error)
      >> pure true

  -- The listener is `on_message`; what is returned is the channel that `off` cancels.
  unfoldable pub subscribe : String → Task D String
  subscribe channel = do
    subscribed ← client.subscribe channel
    logged ← client.log ("Subscribed to " ++ channel)
    pure channel

  unfoldable pub off : String → Task D (Unit {0})
  off channel = client.log ("Unsubscribed from " ++ channel) >> client.cancel channel

  -- A publication that rascal refuses is refused with the same error, whatever is logged, if logging
  -- does not throw.
  pub publish-throws :
      (channel : String) (payload : P) (e : Thrown) (s t u : D)
      → client.publish channel payload s ≡ throws e t
      → client.log_error channel e t ≡ returns tt u
      → publish channel payload s ≡ throws e u
  unfolding publish
  publish-throws channel payload e s t u refused logged = grind (arith, refused, logged)
