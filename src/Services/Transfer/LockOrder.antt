-- ===== src/Services/Transfer/LockOrder.antt =====
-- The order in which a transfer of payment-system/app/services/payment_service.py locks its wallets.
use payment_system.Base.{◌≤◌, ◌≡◌, ◌⊎◌, arith}
use payment_system.Models.Wallet.{Uuid}
use payment_system.Services.Transfer.{lock_order}

-- The pair in ascending order, whichever way round it is given.
pub lock_order_sorted :
    (a b : Uuid)
    → ((lock_order a b).0 ≤ (lock_order a b).1)
      × ((lock_order a b ≡ (a, b)) ⊎ (lock_order a b ≡ (b, a)))
      × (lock_order b a ≡ lock_order a b)
unfolding lock_order
lock_order_sorted a b = ground arith
