-- ===== src/Lib.antt =====
-- A model of block-listener, a service that follows blockchains. The block listener reads blocks
-- from a provider, announces every transaction on RabbitMQ and stores the block. Executors consume
-- the messages: a transaction is processed by a chain of strategies, kept if it is of interest, and
-- the wallets and tokens found on the way are announced and stored in their turn. A handler that
-- fails has its message retried through a retry queue and given up in a dead queue. Values are kept
-- in MongoDB behind a cache, and prices are asked of an HTTP service behind the same cache.
--
-- The files and the code that they model, by paths from the repository's root:
-- - Base: lists, options, tests and `Task`, the asynchronous code as a function of the state that
--   returns or throws.
-- - Executor: src/Infrastructure/Broker/Executor.ts. `execution_wrapper`, `retry_handler`,
--   `retry_manager` and `start_dead_recovery` are its methods, over any handler and any answers of
--   the broker; the callbacks `ack` and `nack` may throw. What a delivery does to the broker is a
--   list of events.
-- - Rabbitmq: ConfigCreation.ts, Enums.ts, Subscription.ts and RabbitMqClient.ts under
--   src/Infrastructure/Broker. `vhost_config` builds the tables as `createBrokerConnection` does,
--   Connection is the loop that it connects by, and Delivery and Revival run the executors on it.
-- - Values, Entities, Utils, Messages: src/App/Values, src/App/Entities, src/App/Utils/Address.ts,
--   src/App/Utils/Misc.ts (Flat) and src/App/PubSub/Messages. A record is an entity's properties, and
--   a method that changes them is a function to the changed record.
-- - App: what the use cases do to the outside, a list of sent messages and stored values.
-- - Repository: CachedMongoBaseRepository.ts over MongoBaseRepository.ts, with the pages of `findAll`
--   (Pages), over a collection and a cache; the filters of WalletRepository.ts, ContractRepository.ts
--   and TokenRepository.ts (Queries); and what BlockRepository.ts and TxRepository.ts make of their
--   answers (Blocks, SwapTokens).
-- - Cache: RedisCache.ts and MemoryCache.ts as instances of `ICache`, and the services that stand on
--   it: FeatureFlagService.ts with its controller (Flags) and CovalentApi.ts (Covalent).
-- - Tokens: TokenService.ts, Utils/Token.ts and `multicallResultHelper` (Multicall).
-- - Providers: ProviderFactory.ts and Utils.ts under src/App/Services/Providers, and the lists of
--   nodes of src/Config/Config.ts.
-- - Price: FinnhubApiService.ts and CryptoCompareApiService.ts. A `Date` is its milliseconds in UTC.
-- - TxProcessor: the chain of src/App/Services/TxProcessor and its strategies for native transfers,
--   for swaps (DexSwap), for token transfers (TokenTransfer) and for swaps of Uniswap V3, on one
--   transaction that they write to.
-- - UseCases: ProcessTx.ts, SaveWallet.ts, SaveTxOfInterest.ts, SaveToken.ts,
--   RequeueMissingTokens.ts and BlockListener.ts. SaveWallet/Race cuts the handler of SaveWallet.ts
--   at its read of the wallet, for two messages that are handled at once.
-- - Startup: the entry points all_in_one.ts, blocklistener.ts, consumers.ts and revive_dead_msgs.ts
--   under src, with what src/Ioc/container.ts binds, as lists of what is started.
-- - Pairs and UseCases/FindInternalTx: the use cases of src/App/UseCases/__deprecated. What is stored
--   by a discoverer is a list of lists of contracts.
-- - Config: src/Config/Config.ts, the settings over the variables of the environment.
-- - Logger: WinstonLoggerClient.ts, over a list of what is logged.
-- - Status: StatusController.ts and the notification of StatusNotifier.ts (Status/Page).
-- - Http: the middlewares, the responses and the other controllers of src/Api/Http.
-- - Tests: concrete runs.
--
-- Handlers reach MongoDB, Redis, the provider, Joi's schemas and the broker through records of
-- functions, each with what it answers and the state that it leaves. Between two calls of them a
-- handler is not interleaved with others, but in SaveWallet/Race, and what the source does not await
-- is run where it is started. A listener is run for a number of rounds, and its wait has fuel for
-- as many questions: it gives `false` if it would still wait, but the client's answer ends it at the
-- first (UseCases/BlockListener/Waiting). The requeueing of tokens is run for a number of timers.
-- `backoff_default_strategy` computes its square root on as much fuel as its argument has, which has
-- more binary digits than it needs.
--
-- Not modelled: how MongoDB answers a filter, the contracts' interfaces, which are data of other
-- projects, and sending. What the operations log is left out, but where it is part of a theorem.
pub mod Base
pub mod Executor
pub mod Rabbitmq
pub mod Values
pub mod Entities
pub mod Utils
pub mod Messages
pub mod App
pub mod Repository
pub mod Cache
pub mod Providers
pub mod Price
pub mod Tokens
pub mod TxProcessor
pub mod UseCases
pub mod Http
pub mod Config
pub mod Logger
pub mod Pairs
pub mod Startup
pub mod Status
pub mod Tests
