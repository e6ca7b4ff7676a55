-- ===== src/Services/Payments/Money.antt =====
-- What `send_money` of payment-system/app/services/payment_service.py does to the money in all wallets.
use payment_system.Base.{Bool, ◌≡◌, ◌⊎◌, inl, inr}
use payment_system.Core.Exceptions.{
  Exception, wallet_not_found, insufficient_balance, duplicate_transaction, self_transfer,
  optimistic_lock, integrity_error, unexpected,
}
use payment_system.Core.Outcome.{IsUnexpected, Outcome, Outcome-weaken}
use payment_system.Models.Wallet.{Uuid}
use payment_system.Models.Tables.{Tables, total}
use payment_system.Schemas.Payment.{PaymentRequest, TransactionResponse}
use payment_system.Store.Database.{Database}
use payment_system.Cache.Redis.{Texts, Redis}
use payment_system.Cache.Idempotency.Replay.{IsCoherent}
use payment_system.Services.World.{World}
use payment_system.Services.Transfer.Money.{total-Posted}
use payment_system.Services.Payments.{send_money, order_of}
use payment_system.Services.Payments.Outcomes.{Denied, Transferred}
use payment_system.Services.Payments.Once.{send_money_answers}

module _ (db : Database) (texts : Texts) (redis : Redis)
    (conserve : (t u : Tables) → db.Others t u → total u.wallets ≡ total t.wallets) where
  open db use {Others}

  total-moved :
      (user : Uuid) (request : PaymentRequest) (d d' : Tables) (r : TransactionResponse)
      → Others d d' ⊎ Transferred db texts redis user request d r d'
      → total d'.wallets ≡ total d.wallets
  total-moved user request d d' r (inl others) = conserve _ _ others
  total-moved user request d d' r (inr t) =
      total-Posted db (order_of request t.sender.id t.receiver.id) conserve d d' r t.posted

  total-Denied :
      (request : PaymentRequest) (d d' : Tables) (e : Exception)
      → Denied db texts redis request d d' e
      → IsUnexpected e ⊎ (total d'.wallets ≡ total d.wallets)
  total-Denied request d d' wallet_not_found h = inr (conserve _ _ h)
  total-Denied request d d' self_transfer h = inr (conserve _ _ h)
  total-Denied request d d' duplicate_transaction h = inr (conserve _ _ h)
  total-Denied request d d' optimistic_lock h = inr (conserve _ _ h)
  total-Denied request d d' integrity_error h = inr (conserve _ _ h)
  total-Denied request d d' (insufficient_balance available required) h = inr (conserve _ _ h.2)
  total-Denied request d d' (unexpected class) h = inl tt
  total-Denied request d d' _ h = absurd h

-- If the commits of other sessions conserve the money in all wallets, and the cache entry of the key
-- agrees with the ledger: a payment on a session with nothing pending that returns conserves it as
-- well, whether it was posted now, found in the ledger or answered from the cache, and so does one
-- that raises any exception but an unexpected one.
pub send_money_conserves_total :
    (db : Database) (conserve : (t u : Tables) → db.Others t u → total u.wallets ≡ total t.wallets)
    (texts : Texts) (redis : Redis) (client : Bool) (user : Uuid) (request : PaymentRequest)
    (w : World db.Session redis.Server)
    → (db.view w.session).seen ≡ (db.view w.session).durable
    → IsCoherent texts redis request.idempotency_key (db.view w.session).durable w.server
    → Outcome
        (λ _ w'.
          total (db.view w'.session).durable.wallets ≡ total (db.view w.session).durable.wallets)
        (λ e w'.
          IsUnexpected e
          ⊎ (total (db.view w'.session).durable.wallets
              ≡ total (db.view w.session).durable.wallets))
        (send_money db texts redis client user request w)
send_money_conserves_total db conserve texts redis client user request w clean k =
    Outcome-weaken _ _ _ _ (send_money db texts redis client user request w)
      (send_money_answers db texts redis client user request w clean k)
      (λ r w' s. total-moved db texts redis conserve user request _ _ r s.moved)
      (λ e w' f. total-Denied db texts redis conserve request _ _ e f.denied)
