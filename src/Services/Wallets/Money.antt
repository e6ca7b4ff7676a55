-- ===== src/Services/Wallets/Money.antt =====
-- What a top-up of payment-system/app/services/wallet_service.py does to the money in all wallets.
use payment_system.Base.{ℕ, Bool, ◌+◌, ◌≡◌, ◌⊎◌, inl, inr, arith}
use payment_system.Core.Exceptions.{
  Exception, wallet_not_found, optimistic_lock, integrity_error, unexpected,
}
use payment_system.Core.Outcome.{IsUnexpected, Outcome, Outcome-weaken}
use payment_system.Models.Wallet.{Uuid}
use payment_system.Models.Tables.{Tables, total}
use payment_system.Schemas.Wallet.{WalletResponse}
use payment_system.Store.Database.{Database}
use payment_system.Store.Totals.{total-Write}
use payment_system.Cache.Redis.{Texts, Redis}
use payment_system.Services.World.{World}
use payment_system.Services.Wallets.{top_up}
use payment_system.Services.Wallets.Added.{ToppedUp, Declined}
use payment_system.Services.Wallets.TopUp.{top_up_adds_once}

module _ (db : Database)
    (conserve : (t u : Tables) → db.Others t u → total u.wallets ≡ total t.wallets) where
  total-ToppedUp :
      (user_id : Uuid) (amount : ℕ) (d : Tables) (r : WalletResponse) (to : Tables)
      → ToppedUp db user_id amount d r to
      → total to.wallets ≡ total d.wallets + amount
  total-ToppedUp user_id amount d r to h = omega (
    arith,
    conserve _ _ h.begun,
    total-Write db conserve h.wallet (h.wallet.balance + amount) h.write,
    conserve _ _ h.published,
    conserve _ _ h.later,
  )

  total-Declined :
      (d d' : Tables) (e : Exception)
      → Declined db d d' e
      → IsUnexpected e ⊎ (total d'.wallets ≡ total d.wallets)
  total-Declined d d' wallet_not_found h = inr (conserve _ _ h)
  total-Declined d d' optimistic_lock h = inr (conserve _ _ h)
  total-Declined d d' integrity_error h = inr (conserve _ _ h)
  total-Declined d d' (unexpected class) h = inl tt
  total-Declined d d' _ h = absurd h

-- If the commits of other sessions conserve the money in all wallets, a top-up on a session with
-- nothing pending that returns has raised it by exactly the amount, however often it had to try
-- again, and one that raises any exception but an unexpected one has left it as it was.
pub top_up_raises_total :
    (db : Database) (conserve : (t u : Tables) → db.Others t u → total u.wallets ≡ total t.wallets)
    (texts : Texts) (redis : Redis) (client : Bool) (user_id : Uuid) (amount : ℕ)
    (w : World db.Session redis.Server)
    → (db.view w.session).seen ≡ (db.view w.session).durable
    → Outcome
        (λ _ w'.
          total (db.view w'.session).durable.wallets
          ≡ total (db.view w.session).durable.wallets + amount)
        (λ e w'.
          IsUnexpected e
          ⊎ (total (db.view w'.session).durable.wallets
              ≡ total (db.view w.session).durable.wallets))
        (top_up db texts redis client user_id amount w)
top_up_raises_total db conserve texts redis client user_id amount w clean =
    Outcome-weaken _ _ _ _ (top_up db texts redis client user_id amount w)
      (top_up_adds_once db texts redis client user_id amount w clean)
      (λ r w' h. total-ToppedUp db conserve user_id amount _ r _ h)
      (λ e w' h. total-Declined db conserve _ _ e h)
