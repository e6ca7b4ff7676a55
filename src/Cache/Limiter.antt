-- ===== src/Cache/Limiter.antt =====
-- `RateLimiter` of payment-system/app/middleware/rate_limiter.py.
pub mod Window
pub mod Entries
pub mod Lockout
use payment_system.Base.{ℕ, String, Option, none, some, if◌then◌else◌}
use payment_system.Core.Exceptions.{http}
use payment_system.Core.Exec.{Exec, pure, raise, ◌>>=◌}
use payment_system.Models.Wallet.{Uuid}
use payment_system.Cache.Redis.{Texts, Redis}
use payment_system.Cache.Keys.{uuid_text}
use payment_system.Cache.Manager.{check_rate_limit}

-- `request.state.user_id` if it is set, the client's host, and the path.
pub record Request : Type 0 where
  pub user_id : Option Uuid
  pub host : String
  pub path : String

abbrev pub identifier : Request → String
identifier r = elim r.user_id [ none ↦ r.host | some id ↦ uuid_text id ]

abbrev pub payment_rate_limit : ℕ
payment_rate_limit = 20

abbrev pub balance_rate_limit : ℕ
balance_rate_limit = 200

abbrev pub auth_rate_limit : ℕ
auth_rate_limit = 5

-- `limit_detail` is the f-string with the number in it.
unfoldable pub limit :
    (texts : Texts) (redis : Redis) → (ℕ → String) → ℕ → Request → Exec redis.Server (Unit {0})
limit texts redis limit_detail max_requests request = do
  allowed ← check_rate_limit texts redis (identifier request) request.path max_requests
  if allowed then pure tt else raise (http 429 (limit_detail max_requests))
