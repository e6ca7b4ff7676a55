-- ===== src/Schemas.antt =====
-- The package app/schemas: requests with their validation, and responses.
pub mod Payment
pub mod Wallet
pub mod User
