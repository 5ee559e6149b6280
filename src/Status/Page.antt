-- ===== src/Status/Page.antt =====
-- `index` of StatusController.ts, and `notify` of StatusNotifier.ts, which reads its page.
use block_listener.Base.{ℕ, String, Bool, true, List, map, Option, some, ◌≡◌, ◌∙◌, ap}
use block_listener.Base.Task.{
  Thrown, returns, Task, pure, or_fail, ◌>>=◌, catch, Ensures, bind-Ensures, pure-Ensures,
  bind-Ensures_given,
}
use Prim.Native.String.{◌++◌}
use block_listener.Rabbitmq.Objects.{Object}
use block_listener.Rabbitmq.{vhost_config}
use block_listener.Status.{
  QueueStatus, Counter, LatestBlock, get_broker_status, block_lines, build_status_message_from_api,
}
use block_listener.Status.Dead.{NoneDead, dead_lines-NoneDead, get_broker_status-NoneDead}

pub record StatusResponse : Type 0 where
  pub v : String
  pub latest_blocks : Object LatestBlock
  pub counter : Counter
  pub broker : Object QueueStatus

pub record ApiResponse (P : Type 0) : Type 0 where
  pub success : Bool
  pub payload : P

-- The three parts are asked for together, and only read.
unfoldable pub index :
    {D : Type 0}
    → Task D (Object LatestBlock)
    → Task D Counter
    → Task D (Object QueueStatus)
    → Task D (ApiResponse StatusResponse)
index get_latest_blocks get_counter get_broker = do
  latest_blocks ← get_latest_blocks
  counter ← get_counter
  broker ← get_broker
  pure (record {
    success = true;
    payload = record { v = "1"; latest_blocks = latest_blocks; counter = counter; broker = broker };
  })

-- The page over HTTP, `JSON.parse` and what it throws, and the webhook of Discord. What is logged
-- of a failure is left out.
module _ {D : Type 0} (to_upper_case : String → String) (number_text : ℕ → String)
    (get_page : Task D String) (parse : String → Option (ApiResponse StatusResponse))
    (syntax_error : Thrown) (send : String → Task D (Unit {0})) where
  unfoldable pub notify : Task D (Unit {0})
  unfolding build_status_message_from_api
  notify =
      catch
        (do
          text ← get_page
          res ← or_fail syntax_error (parse text)
          send (
              build_status_message_from_api to_upper_case number_text res.payload.latest_blocks
                res.payload.broker))
        (λ error. pure tt)

abbrev AliveBroker : ApiResponse StatusResponse → Type 0
AliveBroker page = NoneDead page.payload.broker

index-AliveBroker :
    {D : Type 0} (get_latest_blocks : Task D (Object LatestBlock)) (get_counter : Task D Counter)
    (get_broker : Task D (Object QueueStatus))
    → Ensures NoneDead get_broker
    → Ensures AliveBroker (index get_latest_blocks get_counter get_broker)
unfolding index
index-AliveBroker get_latest_blocks get_counter get_broker alive =
    bind-Ensures AliveBroker get_latest_blocks _ (λ latest_blocks.
      bind-Ensures AliveBroker get_counter _ (λ counter.
        bind-Ensures_given NoneDead AliveBroker get_broker _ alive
          (λ broker ok. pure-Ensures AliveBroker _ ok)))

-- Whatever numbers of messages the queues of the vhost hold when the status page is made, the dead
-- ones included, a notification that reads this page and parses it sends the lines of the latest
-- blocks and then the heading of the dead messages with no queue below it; an error of the send is
-- caught.
pub notify-dead :
    {D : Type 0} (to_upper_case : String → String) (number_text : ℕ → String)
    (get_page : Task D String) (parse : String → Option (ApiResponse StatusResponse))
    (syntax_error : Thrown) (send : String → Task D (Unit {0})) (uri : String) (counts : String → ℕ)
    (get_all_queue_status : Task D (List (String × ℕ)))
    (get_latest_blocks : Task D (Object LatestBlock)) (get_counter : Task D Counter) (s t u v : D)
    (page : ApiResponse StatusResponse) (text : String)
    → Ensures
        (λ queues. queues ≡ map (λ q. (q, counts q)) (vhost_config uri).queues)
        get_all_queue_status
    → index get_latest_blocks get_counter (get_broker_status get_all_queue_status) s
      ≡ returns page t
    → get_page u ≡ returns text v
    → parse text ≡ some page
    → notify to_upper_case number_text get_page parse syntax_error send u
      ≡ catch
          (send (
            block_lines to_upper_case number_text "BlockListener Status:" page.payload.latest_blocks
            ++ ("\n\n" ++ ("Broker Dead Messages:" ++ "\n\n#blocklistener #status"))))
          (λ error. pure tt)
          v
unfolding notify build_status_message_from_api
notify-dead to_upper_case number_text get_page parse syntax_error send uri counts
      get_all_queue_status get_latest_blocks get_counter s t u v page text vhost made read parsed =
    let ok =
      index-AliveBroker get_latest_blocks get_counter (get_broker_status get_all_queue_status)
        (get_broker_status-NoneDead uri counts get_all_queue_status vhost) s t page made in
    let silent =
      dead_lines-NoneDead to_upper_case number_text "Broker Dead Messages:" page.payload.broker
        ok in
    let run : notify to_upper_case number_text get_page parse syntax_error send u
        ≡ catch
            (send (
              build_status_message_from_api to_upper_case number_text page.payload.latest_blocks
                page.payload.broker))
            (λ error. pure tt) v =
      cc in
    run
    ∙ ap
        (λ lines.
          catch
            (send (
              block_lines to_upper_case number_text "BlockListener Status:"
                page.payload.latest_blocks
              ++ ("\n\n" ++ (lines ++ "\n\n#blocklistener #status"))))
            (λ error. pure tt) v)
        silent
