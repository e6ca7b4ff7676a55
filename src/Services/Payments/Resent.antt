-- ===== src/Services/Payments/Resent.antt =====
-- A payment of payment-system/app/services/payment_service.py that was made already, sent again where
-- nothing fails.
use payment_system.Base.{◌≡◌, sym, subst, ap, ◌∙◌, inl, inr, Bool, Option, none, some, arith}
use payment_system.Core.Exec.{Exec}
use payment_system.Core.Outcome.{Returns, Outcome-both, Returns-weaken}
use payment_system.Models.Wallet.{Uuid}
use payment_system.Models.Transaction.{Transaction}
use payment_system.Models.Tables.{Tables, has_key, by_key}
use payment_system.Schemas.Payment.{PaymentRequest, TransactionResponse, transaction_response}
use payment_system.Store.Session.{Read}
use payment_system.Store.Database.{Database}
use payment_system.Store.Calm.{IsCalm}
use payment_system.Store.Repositories.{get_by_idempotency_key}
use payment_system.Cache.Redis.{Texts, Redis}
use payment_system.Cache.Idempotency.{check_key}
use payment_system.Cache.Idempotency.Replay.{Replays, IsCoherent, check_key-Replays}
use payment_system.Services.World.{World, on_server-bind, session_step}
use payment_system.Services.Payments.{lookup_or_send, existing_or_send, cached_or_send, send_money}
use payment_system.Services.Payments.Once.{cached_or_send-stored}
use payment_system.Services.Payments.Repeats.{Repeated, Unanswered, send_money_replays}

module _ (db : Database) (texts : Texts) (redis : Redis) (calm : IsCalm db) (client : Bool)
    (user : Uuid) (request : PaymentRequest) (x : Transaction) where
  open db use {Session, view}
  open redis use {Server}

  abbrev Done : Exec (World Session Server) TransactionResponse → World Session Server → Type 0
  Done m w = Returns (λ _ _. Unit {0}) (m w)

  existing_returns :
      (r : Option Transaction) (w : World Session Server)
      → r ≡ some x
      → Done (existing_or_send db texts redis client user request r) w
  unfolding existing_or_send
  existing_returns none w e = absurd (ground arith)
  existing_returns (some y) w e = tt

  cached_returns :
      (r : Option texts.Json) (w : World Session Server)
      → (view w.session).seen ≡ (view w.session).durable
      → by_key request.idempotency_key (view w.session).durable.transactions ≡ some x
      → Replays texts redis request.idempotency_key (view w.session).durable r
      → Done (cached_or_send db texts redis client user request r) w
  unfolding cached_or_send lookup_or_send get_by_idempotency_key
  cached_returns (some j) w clean found (inl e) = absurd (ground arith)
  cached_returns (some j) w clean found (inr (y, found', e)) =
      subst (λ c. Done (cached_or_send db texts redis client user request c) w) (sym e)
        (rw (cached_or_send-stored db texts redis client user request (transaction_response y) w)
          tt)
  cached_returns none w clean found q =
      session_step
        (λ r s₁.
          Read db.Others db.Shows (λ t. by_key request.idempotency_key t.transactions)
            (view w.session) r (view s₁))
        (λ _ _. Unit {0}) (get_by_idempotency_key db request.idempotency_key) w _
        (Outcome-both _ _ _ (db.select_transaction (has_key request.idempotency_key) w.session)
          (db.select_transaction_law (has_key request.idempotency_key) w.session)
          (calm.queries (has_key request.idempotency_key) w.session))
        (λ r s₁ l.
          existing_returns r (record w { session = s₁ })
            (l.result
              ∙ (ap (λ (t : Tables). by_key request.idempotency_key t.transactions)
                    (sym (calm.alone _ _ l.ran.arrived) ∙ clean)
                  ∙ found)))

  -- On a calm database, where nothing fails and nobody else commits, a payment whose key stands in the
  -- ledger, on a session with nothing pending and with a cache entry of the key that agrees with the
  -- ledger, returns the response of that ledger entry and leaves the durable tables as they are,
  -- whatever Redis does.
  pub send_money_resent :
      (w : World Session Server)
      → (view w.session).seen ≡ (view w.session).durable
      → by_key request.idempotency_key (view w.session).durable.transactions ≡ some x
      → IsCoherent texts redis request.idempotency_key (view w.session).durable w.server
      → Returns
          (λ r w'.
            (r ≡ transaction_response x) × ((view w'.session).durable ≡ (view w.session).durable))
          (send_money db texts redis client user request w)
  unfolding send_money
  send_money_resent w clean found k =
      let d = (view w.session).durable in
      Returns-weaken (Repeated db texts redis (transaction_response x) d) _ (λ _ _. ⊥) _
        (Outcome-both _ (Unanswered db texts redis d) (λ _ _. Unit {0})
          (send_money db texts redis client user request w)
          (send_money_replays db texts redis client user request x w clean found k)
          (on_server-bind
            (λ r c.
              Replays texts redis request.idempotency_key d r
              × IsCoherent texts redis request.idempotency_key d c)
            (λ _ _. ⊥) (λ _ _. Unit {0}) (λ _ _. ⊥)
            (check_key texts redis client request.idempotency_key) w _
            (check_key-Replays texts redis client request.idempotency_key d w.server k)
            (λ r c h. cached_returns r (record w { server = c }) clean found h.0) (λ _ _ y. y)))
        (λ r w' h. (h.0, sym (calm.alone _ _ h.1)))
