-- ===== src/Store/Totals.antt =====
-- The money in all wallets across one versioned write of a balance, by `update_balance` of
-- payment-system/app/repositories/wallet_repo.py.
use payment_system.Base.{ℕ, ◌+◌, ◌≡◌, refl, ap, arith}
use payment_system.Models.Wallet.{Wallet}
use payment_system.Models.Tables.{Tables, total}
use payment_system.Models.Tables.Writes.{total-put}
use payment_system.Store.Database.{Database}
use payment_system.Store.Steps.{Write}

-- If the commits of other sessions conserve it, it changes by what the wallet's balance does.
pub total-Write :
    (db : Database) (conserve : (t u : Tables) → db.Others t u → total u.wallets ≡ total t.wallets)
    {from to : Tables} (w : Wallet) (balance : ℕ)
    → Write db from w balance to
    → total to.wallets + w.balance ≡ total from.wallets + balance
total-Write db conserve {from} {to} w balance h = omega (
  arith,
  conserve _ _ h.arrived,
  ap (λ (t : Tables). total t.wallets) h.done,
  total-put w.id w.version balance h.now w h.before.wallets h.keyed h.found refl,
)
