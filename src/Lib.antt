-- ===== src/Lib.antt =====
-- The payment system: a FastAPI service over PostgreSQL (SQLAlchemy) and Redis, in the folder
-- payment-system/app of the repository. A request handler gets a database session and the shared
-- Redis client, and calls a service; the services call the repositories and the caches.
--
-- Which module models which file:
--   Core.Exceptions      core/exceptions.py: the exceptions with their HTTP status and detail
--   Core.Settings        core/config.py
--   Core.Security        `create_access_token` of core/security.py over jose
--   Core.Logging         core/logging_config.py: context variables, formatters, set-up
--   Core.Exec, Outcome   Python methods that may raise, and statements about how they end
--   Models, Schemas      models/ and schemas/: rows, defaults, constraints, requests, responses
--   Store.Session        what one statement of a session may do between two views of it
--   Store.Database       the interface to SQLAlchemy over PostgreSQL: operations and laws
--   Store.Repositories   repositories/: `get_by_user_id`, `get_by_id_for_update`, `update_balance`,
--                        `create`, `get_by_idempotency_key`, `get_by_wallet_id`
--   Store.Follows, Versioned, Steps, Shown, Totals   what the laws say of those calls
--   Store.Calm           a database that does not fail, with no other sessions
--   Store.Accounts       the interface for user_repo.py and for new wallets
--   Store.Paging         the interface for counts and pages of the ledger
--   Cache.Redis          the interface to redis.asyncio and to the texts of Decimal and json
--   Cache.Steady         a Redis that does not fail, and the round trips through the caches
--   Cache.Keys, Manager  services/cache_manager.py: `CacheKeys`, `CacheTTL`, `RedisCacheManager`
--   Cache.Idempotency    services/idempotency_service.py: `check_key`, `store_key`, `delete_key`
--   Cache.Limiter        middleware/rate_limiter.py
--   Services.World       a session and a Redis server, side by side
--   Services.Wallets     services/wallet_service.py: `get_wallet`, `get_balance_fast`, `top_up`
--   Services.Transfer    `_execute_transfer` of services/payment_service.py
--   Services.Users       services/user_service.py and repositories/user_repo.py
--   Services.Payments    `send_money` of services/payment_service.py
--   Api.Errors           middleware/error_handler.py
--   Api.Auth             middleware/auth.py
--   Api.Transactions     `get_transaction` of api/v1/payments.py
--   Api.History          `get_transaction_history` of api/v1/payments.py
--   Api.Context          middleware/request_context.py
--   Api.Pipeline         the stack of middleware and exception handlers of main.py
--   Api.Sessions         `get_db` of core/database.py: a session for each request
--   Api.Routes           the routes of api/v1, with their dependencies in order
--   Api.Health           the health check and the lifespan of main.py
--   Tests                concrete databases, servers and texts that meet the laws, runs, witnesses
-- The children of a module hold its proofs and are named for what they prove.
--
-- Money is a natural number of cents, since every Decimal of the program has two places (the column
-- is Numeric(18, 2); that a balance stays below 10^16 is not modelled: PostgreSQL raises there). A
-- UUID is its 128-bit integer, by which Python sorts UUIDs, a datetime a number of microseconds.
--
-- PostgreSQL, SQLAlchemy, Redis, Decimal and json are parameters with named laws. A session has
-- three parts: the tables as its next statement would see them, the tables that a rollback would
-- leave, and the rows that it has locked. Between two statements other sessions may commit (READ
-- COMMITTED), but not to a locked row. Their commits are the relation `Others`; all that is assumed
-- of it is `Follows`: a wallet that changes gets a higher version, a ledger entry stays. A plain
-- query may return a row object with columns loaded earlier (the identity map of the ORM). Any
-- statement may raise an exception of the library; a commit that raises may have reached the server.
-- A Redis command may fail after it took effect, and an entry may run out at any moment: this is meant
-- by "whatever Redis does". What is not covered is that another client of Redis writes an entry between
-- two commands of one request; what it writes between two requests is.
--
-- The retry loops run at most `max_retry_attempts` and `max_top_up_retries` rounds, three as in the
-- source, by recursion on the rounds that are left; no other fuel is used. In the source the last
-- round raises `OptimisticLockException` after its rollback; here the recursion then has no round
-- left, and raises it.
--
-- A query that orders by `created_at` leaves entries of one time in any order, and may order them
-- otherwise when it runs again.
--
-- Starlette runs the application below `RequestContextMiddleware` in a task of its own on a copy of the
-- context variables; its exception middleware stands below, its server error middleware above.
--
-- Not modelled: connection pools, the reading of settings from the environment, the creation of the
-- tables (calls of libraries with constants); the mounting of the routers and the CORS middleware
-- (tables of FastAPI); `HTTPBearer`, pydantic's parsing and messages, passlib and jose (parameters).
-- Currencies are carried but never compared, as in the source.
pub mod Base
pub mod Core
pub mod Models
pub mod Schemas
pub mod Store
pub mod Cache
pub mod Services
pub mod Api
pub mod Tests
