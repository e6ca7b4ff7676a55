-- ===== src/Services/Payments/Repeats.antt =====
-- A payment sent again with the same idempotency key: `send_money` of
-- payment-system/app/services/payment_service.py.
use payment_system.Base.{
  ◌≡◌, String, ◌⊎◌, sym, subst, ◌∙◌, inl, inr, Bool, Option, none, some, arith,
}
use payment_system.Core.Exceptions.{Exception}
use payment_system.Core.Exec.{ok}
use payment_system.Core.Outcome.{IsLibrary, Outcome}
use payment_system.Models.Wallet.{Uuid}
use payment_system.Models.Transaction.{Transaction}
use payment_system.Models.Tables.{Tables, has_key, by_key}
use payment_system.Schemas.Payment.{PaymentRequest, TransactionResponse, transaction_response}
use payment_system.Store.Database.{Database}
use payment_system.Store.Repositories.{get_by_idempotency_key}
use payment_system.Cache.Redis.{Texts, Redis}
use payment_system.Cache.Keys.{idempotency_cache_key}
use payment_system.Cache.Idempotency.{check_key}
use payment_system.Cache.Idempotency.Replay.{
  Agrees, Replays, IsCoherent, IsCoherent-Follows, check_key-Replays,
}
use payment_system.Services.World.{World, on_session-bind, on_server-bind}
use payment_system.Services.Payments.{lookup_or_send, existing_or_send, cached_or_send, send_money}
use payment_system.Services.Payments.Outcomes.{SentIn, FailedIn}
use payment_system.Services.Payments.Once.{cached_or_send-stored, send_money_answers}

module _ (db : Database) (texts : Texts) (redis : Redis) where
  open db use {Session, view, Others, others_refl, others_trans, others_Follows}
  open redis use {Server, entry}

  -- The response of the ledger entry `x`, and nothing of this session written since `d`.
  abbrev pub Repeated :
      TransactionResponse → Tables → TransactionResponse → World Session Server → Type 0
  Repeated answer d r w' = (r ≡ answer) × Others d (view w'.session).durable

  -- A library failed, and nothing of this session was written since `d`.
  abbrev pub Unanswered : Tables → Exception → World Session Server → Type 0
  Unanswered d e w' = IsLibrary e × Others d (view w'.session).durable

  module _ (client : Bool) (user : Uuid) (request : PaymentRequest) (x : Transaction) where
    existing_law :
        (d : Tables) (r : Option Transaction) (w : World Session Server)
        → Others d (view w.session).durable
        → r ≡ some x
        → Outcome
            (Repeated (transaction_response x) d)
            (Unanswered d)
            (existing_or_send db texts redis client user request r w)
    unfolding existing_or_send
    existing_law d none w o e = absurd (ground arith)
    existing_law d (some y) w o e = (ground (arith, e), o)

    cached_law :
        (r : Option texts.Json) (w : World Session Server)
        → (view w.session).seen ≡ (view w.session).durable
        → by_key request.idempotency_key (view w.session).durable.transactions ≡ some x
        → Replays texts redis request.idempotency_key (view w.session).durable r
        → Outcome
            (Repeated (transaction_response x) (view w.session).durable)
            (Unanswered (view w.session).durable)
            (cached_or_send db texts redis client user request r w)
    unfolding cached_or_send lookup_or_send get_by_idempotency_key
    cached_law none w clean found q =
        let d = (view w.session).durable in
        on_session-bind _ _ (Repeated (transaction_response x) d) (Unanswered d)
          (get_by_idempotency_key db request.idempotency_key) w _
          (db.select_transaction_law (has_key request.idempotency_key) w.session)
          (λ r s₁ l.
            existing_law d r (record w { session = s₁ }) l.ran.others
              (l.result
                ∙ (others_Follows _ _ l.ran.arrived).ledger request.idempotency_key x (
                    subst (λ (t : Tables). by_key request.idempotency_key t.transactions ≡ some x)
                      (sym clean) found)))
          (λ e s₁ h. h)
    cached_law (some r) w clean found (inl e) = absurd (ground arith)
    cached_law (some r) w clean found (inr (y, found', e)) =
        subst
          (λ j.
            Outcome (Repeated (transaction_response x) (view w.session).durable)
              (Unanswered (view w.session).durable)
              (cached_or_send db texts redis client user request j w))
          (sym e)
          (rw (cached_or_send-stored db texts redis client user request (transaction_response y) w)
            (ground (arith, found, found'), others_refl _))

  -- If the key of the request stands in the ledger, and the cache entry of the key agrees with it,
  -- then a payment on a session with nothing pending answers with the response of that ledger
  -- entry or raises a library's exception, and only other sessions change the durable tables; so
  -- whoever sends the request, and whatever else it asks for. It holds also where the cache entry has
  -- run out: the ledger never lets a key be used again.
  pub send_money_replays :
      (client : Bool) (user : Uuid) (request : PaymentRequest) (x : Transaction)
      (w : World Session Server)
      → (view w.session).seen ≡ (view w.session).durable
      → by_key request.idempotency_key (view w.session).durable.transactions ≡ some x
      → IsCoherent texts redis request.idempotency_key (view w.session).durable w.server
      → Outcome
          (Repeated (transaction_response x) (view w.session).durable)
          (Unanswered (view w.session).durable)
          (send_money db texts redis client user request w)
  unfolding send_money
  send_money_replays client user request x w clean found k =
      let d = (view w.session).durable in
      on_server-bind
        (λ r c.
          Replays texts redis request.idempotency_key d r
          × IsCoherent texts redis request.idempotency_key d c)
        (λ _ _. ⊥) (Repeated (transaction_response x) d) (Unanswered d)
        (check_key texts redis client request.idempotency_key) w _
        (check_key-Replays texts redis client request.idempotency_key d w.server k)
        (λ r c h. cached_law client user request x r (record w { server = c }) clean found h.0)
        (λ e c h. absurd h)

  -- What a later request with the key meets: commits of others moved the tables on, nothing is
  -- pending, and the cache entry of the key is as it was, or agrees with the ledger, as one that has
  -- run out does, and one that another request has stored.
  pub record Later (key : String) (w' w : World Session Server) : Type 0 where
    pub moved : Others (view w'.session).durable (view w.session).durable
    pub clean : (view w.session).seen ≡ (view w.session).durable
    pub kept :
        (entry w.server (idempotency_cache_key key) ≡ entry w'.server (idempotency_cache_key key))
        ⊎ IsCoherent texts redis key (view w.session).durable w.server

  Later-IsCoherent :
      (key : String) (w₁ w₂ : World Session Server)
      → IsCoherent texts redis key (view w₁.session).durable w₁.server
      → Later key w₁ w₂
      → IsCoherent texts redis key (view w₂.session).durable w₂.server
  Later-IsCoherent key w₁ w₂ k l = elim l.kept [
    | inl same ↦ subst (Agrees texts redis key (view w₂.session).durable) (sym same) (
        IsCoherent-Follows texts redis key (view w₁.session).durable (view w₂.session).durable
          w₁.server (others_Follows _ _ l.moved) k)
    | inr coherent ↦ coherent
  ]

  -- A payment that returned is never made again, also when its cache entry has run out. The first
  -- one began with nothing pending and returned `r`, and the cache entry of its key agreed with the
  -- ledger. A later request with the same key by any user meets only commits of others, nothing
  -- pending, and a cache entry of the key that is as the first one left it or agrees with the ledger.
  -- It answers with the very same `r` or raises a library's exception, and only other sessions change
  -- the durable tables.
  pub send_money_once :
      (client client' : Bool) (user user' : Uuid) (request request' : PaymentRequest)
      (r : TransactionResponse) (w w₁ w₂ : World Session Server)
      → request'.idempotency_key ≡ request.idempotency_key
      → (view w.session).seen ≡ (view w.session).durable
      → IsCoherent texts redis request.idempotency_key (view w.session).durable w.server
      → send_money db texts redis client user request w ≡ (ok r, w₁)
      → Later request.idempotency_key w₁ w₂
      → Outcome
          (Repeated r (view w₂.session).durable)
          (Unanswered (view w₂.session).durable)
          (send_money db texts redis client' user' request' w₂)
  send_money_once client client' user user' request request' r w w₁ w₂ same clean k returned l =
      let d = (view w.session).durable in
      let s : SentIn db texts redis client user request d r w₁ =
        subst
          (Outcome (SentIn db texts redis client user request d)
            (FailedIn db texts redis client user request d))
          returned (send_money_answers db texts redis client user request w clean k) in
      subst
        (λ answer.
          Outcome (Repeated answer (view w₂.session).durable) (Unanswered (view w₂.session).durable)
            (send_money db texts redis client' user' request' w₂))
        (sym s.response)
        (send_money_replays client' user' request' s.entry w₂ l.clean
          (subst (λ key. by_key key (view w₂.session).durable.transactions ≡ some s.entry)
            (sym same) ((others_Follows _ _ l.moved).ledger _ s.entry s.recorded))
          (subst (λ key. IsCoherent texts redis key (view w₂.session).durable w₂.server) (sym same)
            (Later-IsCoherent request.idempotency_key w₁ w₂ s.coherent l)))
