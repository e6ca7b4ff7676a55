-- ===== src/Tests/Caching.antt =====
-- The theorems on the caches at concrete inputs.
use payment_system.Base.{◌≡◌, refl, subst, inl, true, none, some, [], ◌∷◌}
use payment_system.Core.Exec.{◌>>◌}
use payment_system.Core.Outcome.{Returns}
use payment_system.Schemas.Payment.{transaction_response}
use payment_system.Cache.Manager.{
  get_balance, set_balance, invalidate_balance, invalidate_balances_pipeline,
  invalidate_wallet_info, check_rate_limit, is_healthy, get_wallet_info, set_wallet_info,
  get_idempotency, set_idempotency,
}
use payment_system.Cache.Manager.Safety.{NeverRaises, cache_manager-NeverRaises}
use payment_system.Cache.Steady.{get_balance-set_balance, check_key-store_key}
use payment_system.Cache.Idempotency.{check_key, store_key}
use payment_system.Cache.Idempotency.Replay.{
  IsCoherent, Replays, check_key-Replays, store_key-IsCoherent,
}
use payment_system.Tests.Texts.{Nonempty, marks}
use payment_system.Tests.Server.{steady, steady_steady, failing, empty}
use payment_system.Tests.Payments.{entry, paid}

cache_manager-NeverRaises_example :
    NeverRaises marks failing (get_balance marks failing 2)
    × NeverRaises marks failing (set_balance marks failing 2 700)
    × NeverRaises marks failing (invalidate_balance marks failing 2)
    × NeverRaises marks failing (invalidate_balances_pipeline marks failing (2 ∷ []))
    × NeverRaises marks failing (invalidate_wallet_info marks failing 2)
    × NeverRaises marks failing
        (check_rate_limit marks failing "10.0.0.1" "/api/v1/payments/send" 20)
    × NeverRaises marks failing (is_healthy marks failing)
    × NeverRaises marks failing (get_wallet_info marks failing 2)
    × NeverRaises marks failing (set_wallet_info marks failing 2 none)
    × NeverRaises marks failing (get_idempotency marks failing "k1")
    × NeverRaises marks failing (set_idempotency marks failing "k1" none)
cache_manager-NeverRaises_example =
    cache_manager-NeverRaises marks failing 2 (2 ∷ []) 700 20 "10.0.0.1" "/api/v1/payments/send"
      "k1" none

get_balance-set_balance_example :
    Returns {S = steady.Server}
      (λ r _. r ≡ some 700)
      ((set_balance marks steady 2 700 >> get_balance marks steady 2) empty)
get_balance-set_balance_example = get_balance-set_balance marks steady steady_steady 2 700 empty

check_key-store_key_example :
    Returns {S = steady.Server}
      (λ j _. j ≡ some (some (transaction_response entry)))
      ((store_key marks steady true "k1" (transaction_response entry) 201
          >> check_key marks steady true "k1")
        empty)
check_key-store_key_example =
    check_key-store_key marks steady steady_steady "k1" (transaction_response entry) 201 empty
      (λ e. subst Nonempty e tt)

check_key-Replays_example :
    Returns {S = steady.Server}
      (λ r s'.
        Replays marks steady "k1" paid.session.durable r
        × IsCoherent marks steady "k1" paid.session.durable s')
      (check_key marks steady true "k1" empty)
check_key-Replays_example =
    check_key-Replays marks steady true "k1" paid.session.durable empty (inl refl)

store_key-IsCoherent_example :
    Returns {S = steady.Server}
      (λ _ s'. IsCoherent marks steady "k1" paid.session.durable s')
      (store_key marks steady true "k1" (transaction_response entry) 201 empty)
store_key-IsCoherent_example =
    store_key-IsCoherent marks steady true "k1" paid.session.durable entry empty refl (inl refl)
