-- ===== src/Entities.antt =====
-- App/Entities: the entities of the program, a date as its milliseconds.
pub mod Wallet
pub mod Tx
pub mod Token
