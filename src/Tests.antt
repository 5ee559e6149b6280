-- ===== src/Tests.antt =====
-- Concrete runs of the definitions and of the theorems.
pub mod Broker
pub mod Retries
pub mod Services
pub mod Processors
pub mod Wallets
pub mod Transactions
pub mod Blocks
pub mod Discovery
pub mod Repositories
pub mod Processing
pub mod Swaps
pub mod Tokens
pub mod Caches
pub mod Pages
pub mod Web
pub mod Helpers
