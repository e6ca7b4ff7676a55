-- ===== src/Services/Payments/Succeeds.antt =====
-- A payment of payment-system/app/services/payment_service.py that nothing disturbs goes through.
use payment_system.Base.{
  ◌≡◌, sym, subst, ap, ◌∙◌, inl, inr, Bool, false, String, Option, none, some, List, find, ◌==◌,
  arith,
}
use payment_system.Core.Exec.{Exec}
use payment_system.Core.Outcome.{Returns, Outcome-both, Returns-weaken}
use payment_system.Models.Wallet.{Uuid, Wallet}
use payment_system.Models.Tables.{Tables, has_key, by_key}
use payment_system.Models.Transaction.{Transaction}
use payment_system.Schemas.Payment.{PaymentRequest, TransactionResponse}
use payment_system.Store.Session.{Read}
use payment_system.Store.Database.{Database}
use payment_system.Store.Calm.{IsCalm}
use payment_system.Store.Repositories.{get_by_idempotency_key}
use payment_system.Cache.Redis.{Texts, Redis}
use payment_system.Cache.Idempotency.{check_key}
use payment_system.Cache.Idempotency.Replay.{Replays, IsCoherent, check_key-Replays}
use payment_system.Services.World.{World, on_server-bind, session_step}
use payment_system.Services.Payments.{
  order_of, validate_and_send, lookup_or_send, existing_or_send, cached_or_send, send_money,
}
use payment_system.Services.Payments.Outcomes.{Transferred, SentIn, FailedIn}
use payment_system.Services.Transfer.Trace.{Posted}
use payment_system.Store.Shown.{Queried}
use payment_system.Services.Payments.Once.{send_money_answers}
use payment_system.Services.Wallets.Present.{found_step}
use payment_system.Services.Payments.Undisturbed.{Payable, attempts_returns}

module _ (db : Database) (texts : Texts) (redis : Redis) (calm : IsCalm db)
    (deletes : (ks : List String) (c : redis.Server)
      → Returns (λ _ _. Unit {0}) (redis.delete_all ks c))
    (client : Bool) (user : Uuid) (request : PaymentRequest) (a b : Wallet) where
  open db use {Session, view}
  open redis use {Server}

  abbrev Done : {A : Type 0} → Exec (World Session Server) A → World Session Server → Type 0
  Done m w = Returns (λ _ _. Unit {0}) (m w)

  validate_returns :
      (w : World Session Server)
      → Payable user request (view w.session).seen a b
      → Done (validate_and_send db texts redis client user request) w
  unfolding validate_and_send
  validate_returns w p = found_step db texts redis calm user a w _ p.sender (λ s₁ e₁.
      found_step db texts redis calm request.receiver_id b (record w { session = s₁ }) _
        (ap (λ (t : Tables). find (λ w. w.user_id == request.receiver_id) t.wallets) e₁
          ∙ p.receiver)
        (λ s₂ e₂.
          let other : (a.id == b.id) ≡ false = ground (arith, p.distinct) in
          rw other (
            attempts_returns db texts redis calm deletes client user request a b 2
              (record w { session = s₂ })
              (subst (λ t. Payable user request t a b) (sym (e₂ ∙ e₁)) p))))

  existing_returns :
      (r : Option Transaction) (w : World Session Server)
      → r ≡ none
      → Payable user request (view w.session).seen a b
      → Done (existing_or_send db texts redis client user request r) w
  unfolding existing_or_send
  existing_returns none w e p = validate_returns w p
  existing_returns (some x) w e p = absurd (ground arith)

  cached_returns :
      (r : Option texts.Json) (w : World Session Server)
      → r ≡ none
      → Payable user request (view w.session).seen a b
      → Done (cached_or_send db texts redis client user request r) w
  unfolding cached_or_send lookup_or_send get_by_idempotency_key
  cached_returns (some x) w e p = absurd (ground arith)
  cached_returns none w e p =
      session_step
        (λ r s₁.
          Read db.Others db.Shows (λ t. by_key request.idempotency_key t.transactions)
            (view w.session) r (view s₁))
        (λ _ _. Unit {0}) (get_by_idempotency_key db request.idempotency_key) w _
        (Outcome-both _ _ _ (db.select_transaction (has_key request.idempotency_key) w.session)
          (db.select_transaction_law (has_key request.idempotency_key) w.session)
          (calm.queries (has_key request.idempotency_key) w.session))
        (λ r s₁ l.
          let same = sym (calm.alone _ _ l.ran.arrived) in
          existing_returns r (record w { session = s₁ })
            (l.result
              ∙ (ap (λ (t : Tables). by_key request.idempotency_key t.transactions) same
                  ∙ p.unused))
            (subst (λ t. Payable user request t a b) (sym same) p))

  send_money_returns :
      (w : World Session Server)
      → (view w.session).seen ≡ (view w.session).durable
      → IsCoherent texts redis request.idempotency_key (view w.session).durable w.server
      → Payable user request (view w.session).seen a b
      → Done (send_money db texts redis client user request) w
  unfolding send_money
  send_money_returns w clean k p =
      let d = (view w.session).durable in
      let unused =
        subst (λ (t : Tables). by_key request.idempotency_key t.transactions ≡ none) clean
          p.unused in
      on_server-bind
        (λ r c.
          Replays texts redis request.idempotency_key d r
          × IsCoherent texts redis request.idempotency_key d c)
        (λ _ _. ⊥) (λ _ _. Unit {0}) (λ _ _. ⊥)
        (check_key texts redis client request.idempotency_key) w _
        (check_key-Replays texts redis client request.idempotency_key d w.server k)
        (λ r c h. cached_returns r (record w { server = c }) (fresh unused r h.0) p) (λ _ _ x. x)
    where
      fresh :
          by_key request.idempotency_key (view w.session).durable.transactions ≡ none
          → (r : Option texts.Json)
          → Replays texts redis request.idempotency_key (view w.session).durable r
          → r ≡ none
      fresh unused r (inl e) = e
      fresh unused r (inr (x, found, e)) = absurd (ground (arith, found, unused))

module _ (db : Database) (texts : Texts) (redis : Redis) (calm : IsCalm db) where
  -- Where nobody else commits, the query by user returned the row that was there from the beginning.
  undisturbed_row :
      (user_id : Uuid) (d : Tables) (o a : Wallet)
      → find (λ w. w.user_id == user_id) d.wallets ≡ some a
      → Queried db user_id d o
      → o ≡ a
  undisturbed_row user_id d o a e q =
      let found =
        subst (λ (t : Tables). find (λ w. w.user_id == user_id) t.wallets ≡ some q.row)
          (sym (calm.alone _ _ q.reached)) q.found in
      let same : q.row ≡ a = ground (arith, found, e) in calm.fresh o q.row q.shown ∙ same

  between :
      (user : Uuid) (request : PaymentRequest) (a b : Wallet) (d : Tables) (r : TransactionResponse)
      (d' : Tables)
      → Payable user request d a b
      → Transferred db texts redis user request d r d'
      → Posted db (order_of request a.id b.id) d r d'
  between user request a b d r d' p t =
      subst (λ x. Posted db (order_of request x.id b.id) d r d')
        (undisturbed_row user d t.sender a p.sender t.sender_row)
        (subst (λ y. Posted db (order_of request t.sender.id y.id) d r d')
          (undisturbed_row request.receiver_id d t.receiver b p.receiver t.receiver_row) t.posted)

-- On a calm database, where nothing fails and nobody else commits, with a cache whose deletes do not
-- fail and whose entry of the key agrees with the ledger, and on a session with nothing pending: a
-- payment of a positive amount that the wallet of the sending user covers, to another user's wallet
-- and under a new key, returns, and has posted the transfer from that wallet to the other one: one
-- commit that takes the amount from the sending user's wallet, adds it to the receiving user's and
-- writes the ledger entry, after which the response shows that entry.
pub send_money_succeeds :
    (db : Database) (texts : Texts) (redis : Redis) (calm : IsCalm db)
    (deletes : (ks : List String) (c : redis.Server)
      → Returns (λ _ _. Unit {0}) (redis.delete_all ks c))
    (client : Bool) (user : Uuid) (request : PaymentRequest) (a b : Wallet)
    (w : World db.Session redis.Server)
    → (db.view w.session).seen ≡ (db.view w.session).durable
    → IsCoherent texts redis request.idempotency_key (db.view w.session).durable w.server
    → Payable user request (db.view w.session).seen a b
    → Returns
        (λ r w'.
          Posted db
            (order_of request a.id b.id)
            (db.view w.session).durable
            r
            (db.view w'.session).durable)
        (send_money db texts redis client user request w)
send_money_succeeds db texts redis calm deletes client user request a b w clean k p =
    Returns-weaken (SentIn db texts redis client user request (db.view w.session).durable) _ _ _
      (Outcome-both _ (FailedIn db texts redis client user request (db.view w.session).durable) _
        (send_money db texts redis client user request w)
        (send_money_answers db texts redis client user request w clean k)
        (send_money_returns db texts redis calm deletes client user request a b w clean k p))
      (λ r w' s. elim s.moved [
        | inl others ↦
            let back =
              subst (λ (t : Tables). by_key request.idempotency_key t.transactions ≡ some s.entry)
                (sym (clean ∙ calm.alone _ _ others)) s.recorded in
            absurd (ground (arith, back, p.unused))
        | inr t ↦
            between db texts redis calm user request a b (db.view w.session).durable r _
              (subst (λ t. Payable user request t a b) clean p) t
      ])
