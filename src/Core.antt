-- ===== src/Core.antt =====
-- The package app/core: the domain exceptions, and methods that may raise them.
pub mod Exceptions
pub mod Exec
pub mod Outcome
pub mod Settings
pub mod Security
pub mod Logging
