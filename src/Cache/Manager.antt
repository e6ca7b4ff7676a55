-- ===== src/Cache/Manager.antt =====
-- `RedisCacheManager` of payment-system/app/services/cache_manager.py. Every method catches what
-- Redis raises.
pub mod Safety
use payment_system.Base.{
  ℕ, String, Bool, true, false, Option, none, some, List, map, leb, str_eq, ◌==◌, if◌then◌else◌,
}
use payment_system.Core.Exceptions.{unexpected}
use payment_system.Core.Exec.{Exec, pure, or_raise, on_error, ◌>>=◌, ◌>>◌}
use payment_system.Models.Wallet.{Uuid}
use payment_system.Cache.Redis.{Texts, Redis}
use payment_system.Cache.Keys.{
  idempotency_cache_key, wallet_info_ttl, idempotency_ttl, balance_key, wallet_info_key,
  rate_limit_key, balance_ttl, rate_limit_ttl,
}

module _ (texts : Texts) (redis : Redis) where
  open texts use {decimal_text, parse_decimal, Json, loads, dumps}
  open redis use {Server, get, setex, delete, delete_all, incr, expire, ping}

  -- `Decimal(cached)` raises on a text that is no number.
  abbrev pub decode_balance : Option String → Exec Server (Option ℕ)
  decode_balance none = pure none
  decode_balance (some cached) = do
    amount ← or_raise (unexpected 1) (parse_decimal cached)
    pure (some amount)

  unfoldable pub get_balance : Uuid → Exec Server (Option ℕ)
  get_balance wallet_id s =
      on_error ((do cached ← get (balance_key wallet_id); decode_balance cached) s) (λ _. pure none)

  unfoldable pub set_balance : Uuid → ℕ → Exec Server (Unit {0})
  set_balance wallet_id balance s =
      on_error (setex (balance_key wallet_id) balance_ttl (decimal_text balance) s) (λ _. pure tt)

  unfoldable pub invalidate_balance : Uuid → Exec Server (Unit {0})
  invalidate_balance wallet_id s = on_error (delete (balance_key wallet_id) s) (λ _. pure tt)

  unfoldable pub invalidate_balances_pipeline : List Uuid → Exec Server (Unit {0})
  invalidate_balances_pipeline wallet_ids s =
      on_error (delete_all (map balance_key wallet_ids) s) (λ _. pure tt)

  -- `if cached: return json.loads(cached)`
  abbrev pub decode_json : Option String → Exec Server (Option Json)
  decode_json none = pure none
  decode_json (some cached) =
      if str_eq cached ""
      then pure none
      else (do json ← or_raise (unexpected 2) (loads cached); pure (some json))

  unfoldable pub get_wallet_info : Uuid → Exec Server (Option Json)
  get_wallet_info wallet_id s =
      on_error ((do cached ← get (wallet_info_key wallet_id); decode_json cached) s)
        (λ _. pure none)

  unfoldable pub set_wallet_info : Uuid → Json → Exec Server (Unit {0})
  set_wallet_info wallet_id wallet_data s =
      on_error (setex (wallet_info_key wallet_id) wallet_info_ttl (dumps wallet_data) s)
        (λ _. pure tt)

  unfoldable pub get_idempotency : String → Exec Server (Option Json)
  get_idempotency key s =
      on_error ((do cached ← get (idempotency_cache_key key); decode_json cached) s)
        (λ _. pure none)

  unfoldable pub set_idempotency : String → Json → Exec Server (Unit {0})
  set_idempotency key response_data s =
      on_error (setex (idempotency_cache_key key) idempotency_ttl (dumps response_data) s)
        (λ _. pure tt)

  unfoldable pub invalidate_wallet_info : Uuid → Exec Server (Unit {0})
  invalidate_wallet_info wallet_id s =
      on_error (delete (wallet_info_key wallet_id) s) (λ _. pure tt)

  -- True where the request is allowed. The first request of a window sets its end.
  unfoldable pub check_rate_limit : String → String → ℕ → Exec Server Bool
  check_rate_limit identifier endpoint max_requests s =
      on_error
        ((do
          current ← incr (rate_limit_key identifier endpoint)
          (if current == 1
              then expire (rate_limit_key identifier endpoint) rate_limit_ttl
              else pure tt)
          pure (leb current max_requests))
          s)
        (λ _. pure true)

  unfoldable pub is_healthy : Exec Server Bool
  is_healthy s = on_error (ping s) (λ _. pure false)
