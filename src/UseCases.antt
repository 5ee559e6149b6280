-- ===== src/UseCases.antt =====
-- App/UseCases
pub mod BlockListener
pub mod FindInternalTx
pub mod ProcessTx
pub mod RequeueMissingTokens
pub mod SaveToken
pub mod SaveWallet
pub mod SaveTxOfInterest
