-- ===== src/Store.antt =====
-- The database as the program uses it, and the package app/repositories over it.
pub mod Session
pub mod Database
pub mod Repositories
pub mod Follows
pub mod Versioned
pub mod Steps
pub mod Totals
pub mod Shown
pub mod Calm
pub mod Accounts
pub mod Paging
