-- ===== src/Services.antt =====
-- The package app/services: wallets and payments over the database and the cache.
pub mod World
pub mod Wallets
pub mod Transfer
pub mod Payments
pub mod Users
