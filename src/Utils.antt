-- ===== src/Utils.antt =====
-- App/Utils
pub mod Address
pub mod Flat
