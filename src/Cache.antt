-- ===== src/Cache.antt =====
-- Redis as the program uses it, and the services over it.
pub mod Redis
pub mod Steady
pub mod Keys
pub mod Manager
pub mod Idempotency
pub mod Limiter
