-- ===== src/Models.antt =====
-- The ORM models of payment-system/app/models: the rows of three tables, the column defaults and
-- the constraints that the models declare.
pub mod Wallet
pub mod Transaction
pub mod User
pub mod Tables
