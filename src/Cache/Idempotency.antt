-- ===== src/Cache/Idempotency.antt =====
-- `IdempotencyService` of payment-system/app/services/idempotency_service.py. Whether a client was
-- given is the first argument.
pub mod Replay
use payment_system.Base.{ℕ, ◌*◌, String, Bool, Option, none, some, str_eq, if◌then◌else◌}
use payment_system.Core.Exceptions.{unexpected}
use payment_system.Core.Settings.{default_settings}
use payment_system.Core.Exec.{Exec, pure, or_raise, on_error, ◌>>=◌}
use payment_system.Schemas.Payment.{TransactionResponse}
use payment_system.Cache.Redis.{Texts, Redis}
use payment_system.Cache.Keys.{idempotency_cache_key}

-- `IDEMPOTENCY_TTL`, with the default settings.
abbrev pub ttl_seconds : ℕ
ttl_seconds = default_settings.idempotency_key_ttl_hours * 3600

module _ (texts : Texts) (redis : Redis) where
  open texts use {Json, loads, dumps, stored}
  open redis use {Server, get, setex, delete}

  -- `if cached: return json.loads(cached)`
  abbrev pub decode_stored : Option String → Exec Server (Option Json)
  decode_stored none = pure none
  decode_stored (some cached) =
      if str_eq cached ""
      then pure none
      else (do json ← or_raise (unexpected 2) (loads cached); pure (some json))

  unfoldable pub check_key : Bool → String → Exec Server (Option Json)
  check_key client key s =
      if str_eq key ""
      then (pure none) s
      else if client
      then on_error ((do cached ← get (idempotency_cache_key key); decode_stored cached) s)
          (λ _. pure none)
      else (pure none) s

  unfoldable pub store_key : Bool → String → TransactionResponse → ℕ → Exec Server (Unit {0})
  store_key client key response_data status_code s =
      if client
      then on_error
          (setex (idempotency_cache_key key) ttl_seconds (dumps (stored response_data status_code))
            s)
          (λ _. pure tt)
      else (pure tt) s

  unfoldable pub delete_key : Bool → String → Exec Server (Unit {0})
  delete_key client key s =
      if client then on_error (delete (idempotency_cache_key key) s) (λ _. pure tt) else (pure tt) s
