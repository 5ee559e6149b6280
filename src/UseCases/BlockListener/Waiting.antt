-- ===== src/UseCases/BlockListener/Waiting.antt =====
-- BlockListener.ts with the client of RabbitMqClient.ts on the vhost of ConfigCreation.ts: the wait
-- for the queue of discovered transactions.
use block_listener.Base.{ℕ, suc, String, ◌≡◌, Option, none, some, apart, refl, arith}
use block_listener.Base.Task.{returns, throws, Task}
use block_listener.Values.{BlockchainId}
use block_listener.App.{App}
use block_listener.Rabbitmq.Names.{Subscription, subscription_name}
use block_listener.Rabbitmq.{vhost_config}
use block_listener.Rabbitmq.Client.{
  undefined_name, get_pending_messages, get_pending_messages-throws,
}
use block_listener.UseCases.BlockListener.{Deps, next_round_awaiter, listener_round}

module _ {D : Type 0} (deps : Deps D) (blockchain : BlockchainId) (uri : String)
    (queue_len : String → Task D (Option ℕ))
    (asks : (s : D)
      → deps.get_pending_messages s
        ≡ get_pending_messages
            (some (vhost_config uri))
            queue_len
            (subscription_name Subscription.discovered_tx_to_process)
            s) where
  awaiter-throws :
      (fuel : ℕ) (s : D) → next_round_awaiter deps blockchain (suc fuel) s ≡ throws undefined_name s
  unfolding next_round_awaiter
  awaiter-throws fuel s = ground (
    arith,
    asks s,
    get_pending_messages-throws uri queue_len Subscription.discovered_tx_to_process s
        (apart "discovered_tx_to_process" "process_tx" refl),
  )

  -- A round that finds no block ends at once with the number that it began with: however many messages
  -- are pending, the listener does not sleep, since the question for their number throws.
  pub listener_round-awake :
      (fuel n : ℕ) (s : App D) (d : D)
      → deps.get_block_with_transactions blockchain n s.db ≡ returns none d
      → listener_round deps blockchain (suc fuel) n s ≡ returns n (record s { db = d })
  unfolding listener_round
  listener_round-awake fuel n s d nothing = ground (arith, awaiter-throws fuel d)
