-- ===== src/Api.antt =====
-- What stands between HTTP and the services: payment-system/app/api and the handlers of
-- payment-system/app/middleware.
pub mod Errors
pub mod Transactions
pub mod History
pub mod Sessions
pub mod Context
pub mod Pipeline
pub mod Health
pub mod Routes
pub mod Auth
