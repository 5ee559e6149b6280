-- ===== src/Startup.antt =====
-- The entry points src/all_in_one.ts, src/blocklistener.ts, src/consumers.ts and
-- src/revive_dead_msgs.ts, over what src/Ioc/container.ts binds. What they start is not awaited, so
-- it is listed in the order in which it is started; connecting and logging are left out.
pub mod Wiring
use block_listener.Base.{
  String, Bool, true, false, List, [], ◌∷◌, ◌++◌, ◌===◌, string_eq, if◌then◌else◌, Option, none,
  some, ℕ,
}
use block_listener.Executor.Channels.{add_retry_prefix, add_dead_prefix}
use block_listener.Rabbitmq.Names.{Subscription, subscription_name}

-- The classes that the container binds to `Executors`, `StandAloneApps` and `Adapters`.
pub data ExecutorClass : Type 0 where
  process_tx save_tx_of_interest save_token save_wallet : ExecutorClass

pub data AppClass : Type 0 where
  block_listener_app requeue_missing_tokens status_notifier : AppClass

pub data AdapterClass : Type 0 where
  http_adapter : AdapterClass

abbrev pub executors : List ExecutorClass
executors =
    ExecutorClass.process_tx ∷ ExecutorClass.save_tx_of_interest ∷ ExecutorClass.save_token
    ∷ ExecutorClass.save_wallet ∷ []

abbrev pub stand_alone_apps : List AppClass
stand_alone_apps = block_listener_app ∷ requeue_missing_tokens ∷ status_notifier ∷ []

abbrev pub adapters : List AdapterClass
adapters = http_adapter ∷ []

-- `constructor.name`
abbrev pub class_name : ExecutorClass → String
class_name ExecutorClass.process_tx = "ProcessTx"
class_name ExecutorClass.save_tx_of_interest = "SaveTxOfInterest"
class_name ExecutorClass.save_token = "SaveToken"
class_name ExecutorClass.save_wallet = "SaveWallet"

-- The subscription that each executor hands to `super`.
abbrev pub executor_subscription : ExecutorClass → Subscription
executor_subscription ExecutorClass.process_tx = Subscription.discovered_tx_to_process
executor_subscription ExecutorClass.save_tx_of_interest = Subscription.tx_processed
executor_subscription ExecutorClass.save_token = Subscription.save_token
executor_subscription ExecutorClass.save_wallet = Subscription.save_wallet

pub data Started : Type 0 where
  adapter : AdapterClass → Started
  app : AppClass → Started
  -- `broker.subscribe(channel, …)`
  subscribed : String → Started
  -- the same every day, with `startDeadRecovery` and its amount
  every_day : String → Started
  playground : Started

unfoldable pub executor_channel : ExecutorClass → String
executor_channel c = subscription_name (executor_subscription c)

-- `start`, `startRetryManager` and `startDeadRecovery` of an executor.
unfoldable pub start : ExecutorClass → Started
unfolding executor_channel
start c = subscribed (executor_channel c)

unfoldable pub start_retry_manager : ExecutorClass → Started
unfolding executor_channel add_retry_prefix
start_retry_manager c = subscribed (add_retry_prefix (executor_channel c))

unfoldable pub dead_subscription : ExecutorClass → String
unfolding executor_channel add_dead_prefix
dead_subscription c = add_dead_prefix (executor_channel c)

-- `forEach` with what it starts for each.
abbrev pub for_each : {A : Type 0} → (A → List Started) → List A → List Started
for_each f [] = []
for_each f (x ∷ xs) = f x ++ for_each f xs

abbrev pub start_adapters : List Started
start_adapters = for_each (λ a. adapter a ∷ []) adapters

abbrev pub start_apps : List Started
start_apps = for_each (λ a. app a ∷ []) stand_alone_apps

-- `main` of all_in_one.ts, with `DEV` and `API_ONLY`.
unfoldable pub all_in_one : Bool → Bool → List Started
unfolding start start_retry_manager
all_in_one dev api_only =
    if dev
    then playground ∷ []
    else if api_only
    then start_adapters
    else start_adapters
      ++ (for_each (λ c. start c ∷ start_retry_manager c ∷ []) executors ++ start_apps)

-- `main` of blocklistener.ts
unfoldable pub blocklistener : Bool → List Started
blocklistener api_only = if api_only then start_adapters else start_adapters ++ start_apps

-- `main` of consumers.ts
unfoldable pub consumers : List Started
unfolding start start_retry_manager dead_subscription
consumers =
    for_each (λ c. start c ∷ start_retry_manager c ∷ every_day (dead_subscription c) ∷ []) executors

-- `main` of revive_dead_msgs.ts
unfoldable pub revive_dead_msgs : String → List Started
unfolding dead_subscription
revive_dead_msgs use_case_name =
    for_each
      (λ c. if class_name c === use_case_name then subscribed (dead_subscription c) ∷ [] else [])
      executors
