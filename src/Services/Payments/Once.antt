-- ===== src/Services/Payments/Once.antt =====
-- `send_money` of payment-system/app/services/payment_service.py as a whole, and the same request sent
-- again.
use payment_system.Base.{
  ◌≡◌, Option, none, refl, sym, subst, ◌∙◌, inl, inr, Bool, some, Bool-cases, if◌then◌else◌, ◌==◌,
  arith,
}
use payment_system.Core.Exceptions.{Exception, self_transfer}
use payment_system.Core.Exec.{ok, raise}
use payment_system.Core.Outcome.{Outcome, Outcome-bind}
use payment_system.Models.Wallet.{Uuid, Wallet}
use payment_system.Models.Transaction.{Transaction}
use payment_system.Models.Tables.{Tables, has_key, by_key}
use payment_system.Store.Repositories.{get_by_idempotency_key}
use payment_system.Schemas.Payment.{PaymentRequest, TransactionResponse, transaction_response}
use payment_system.Store.Database.{Database}
use payment_system.Store.Shown.{Queried}
use payment_system.Cache.Redis.{Texts, Redis}
use payment_system.Cache.Idempotency.{check_key}
use payment_system.Cache.Idempotency.Replay.{
  Replays, check_key-Replays, IsCoherent, IsCoherent-Follows,
}
use payment_system.Services.World.{World, on_session-bind, on_server-bind}
use payment_system.Services.Wallets.Found.{Clean, Found, Missing, find_wallet_law}
use payment_system.Services.Payments.{
  lookup_or_send, existing_or_send, cached_or_send, validate_and_send, send_money, attempts,
  max_retry_attempts,
}
use payment_system.Services.Payments.Retries.{attempts_law}
use payment_system.Services.Wallets.{find_wallet}
use payment_system.Services.Payments.Outcomes.{
  Denied, library-Denied, SentIn, FailedIn, Failed-Denied,
}

-- A stored response is sent as it was.
pub cached_or_send-stored :
    (db : Database) (texts : Texts) (redis : Redis) (client : Bool) (user : Uuid)
    (request : PaymentRequest) (r : TransactionResponse) (w : World db.Session redis.Server)
    → cached_or_send db texts redis client user request (some (texts.stored r 201)) w ≡ (ok r, w)
unfolding cached_or_send
cached_or_send-stored db texts redis client user request r w =
    rw (texts.is_truthy_stored r 201, texts.response_of_stored r 201) refl

module _ (db : Database) (texts : Texts) (redis : Redis) (client : Bool) (user : Uuid)
    (request : PaymentRequest) (d : Tables) where
  open db use {Session, view, Others, Shows, others_refl, others_trans, others_Follows}
  open redis use {Server, entry}

  abbrev Key : Tables → Server → Type 0
  Key t c = IsCoherent texts redis request.idempotency_key t c

  abbrev SentHere : TransactionResponse → World Session Server → Type 0
  SentHere = SentIn db texts redis client user request d

  abbrev FailedHere : Exception → World Session Server → Type 0
  FailedHere = FailedIn db texts redis client user request d

  Failed-Missing :
      (id : Uuid) (c : Server) (e : Exception) (w' : World Session Server)
      → Key d c
      → Missing db texts redis d id c e w'
      → FailedHere e w'
  Failed-Missing id c e w' k (inl library, h, same) =
      Failed-Denied db texts redis client user request d e (view w'.session) w'.server
        (library-Denied db texts redis request d _ e library h) (subst (Key d) (sym same) k)
  Failed-Missing id c e w' k (inr missing, h, same) =
      Failed-Denied db texts redis client user request d e (view w'.session) w'.server
        (subst (Denied db texts redis request d (view w'.session).durable) (sym missing.0) h)
        (subst (Key d) (sym same) k)

  -- The two wallets are there, and the loop begins.
  checked_law :
      (sender receiver : Wallet) (w : World Session Server)
      → Clean db texts redis d (view w.session)
      → Key d w.server
      → Queried db user d sender
      → Queried db request.receiver_id d receiver
      → Outcome SentHere FailedHere (
          (if sender.id == receiver.id
              then raise self_transfer
              else attempts db texts redis client request sender receiver max_retry_attempts)
            w)
  checked_law sender receiver w c k su ru = elim (Bool-cases (sender.id == receiver.id)) [
    | inl same ↦ rw same (
        Failed-Denied db texts redis client user request d self_transfer (view w.session) w.server
          c.durable k)
    | inr other ↦ rw other (
        attempts_law db texts redis client user request d sender receiver su ru
          (ground (arith, other)) max_retry_attempts w c k)
  ]

  validate_and_send_law :
      (w : World Session Server)
      → Clean db texts redis d (view w.session)
      → Key d w.server
      → Outcome SentHere FailedHere (validate_and_send db texts redis client user request w)
  unfolding validate_and_send find_wallet
  validate_and_send_law w c k =
      Outcome-bind (Found db texts redis d user w.server) SentHere
        (Missing db texts redis d user w.server) FailedHere (find_wallet db texts redis user w) _
        (find_wallet_law db texts redis d user w c)
        (λ sender w₁ f.
          Outcome-bind (Found db texts redis d request.receiver_id w₁.server) SentHere
            (Missing db texts redis d request.receiver_id w₁.server) FailedHere
            (find_wallet db texts redis request.receiver_id w₁) _
            (find_wallet_law db texts redis d request.receiver_id w₁ f.0)
            (λ receiver w₂ g.
              checked_law sender receiver w₂ g.0 (subst (Key d) (sym (g.3 ∙ f.3)) k) f.4 g.4)
            (λ e w₂ m.
              Failed-Missing request.receiver_id w₁.server e w₂ (subst (Key d) (sym f.3) k) m))
        (λ e w₁ m. Failed-Missing user w.server e w₁ k m)

  -- The ledger's answer, at the end of a query with nothing pending.
  existing_law :
      (r : Option Transaction) (w : World Session Server)
      → Clean db texts redis d (view w.session)
      → Key d w.server
      → r ≡ by_key request.idempotency_key (view w.session).seen.transactions
      → Outcome SentHere FailedHere (existing_or_send db texts redis client user request r w)
  unfolding existing_or_send validate_and_send
  existing_law none w c k e = validate_and_send_law w c k
  existing_law (some x) w c k e = record {
    entry = x;
    recorded =
        subst (λ (t : Tables). by_key request.idempotency_key t.transactions ≡ some x) c.clean
          (sym e);
    response = refl;
    moved = inl c.durable;
    coherent =
        IsCoherent-Follows texts redis request.idempotency_key d (view w.session).durable w.server
          (others_Follows _ _ c.durable) k;
  }

  cached_law :
      (r : Option texts.Json) (w : World Session Server)
      → Clean db texts redis d (view w.session)
      → (view w.session).durable ≡ d
      → Key d w.server
      → Replays texts redis request.idempotency_key d r
      → Outcome SentHere FailedHere (cached_or_send db texts redis client user request r w)
  unfolding get_by_idempotency_key cached_or_send lookup_or_send
  cached_law none w c same k q =
      on_session-bind _ _ SentHere FailedHere (get_by_idempotency_key db request.idempotency_key) w
        _ (db.select_transaction_law (has_key request.idempotency_key) w.session)
        (λ r s₁ l.
          existing_law r (record w { session = s₁ })
            (record {
              durable = others_trans _ _ _ c.durable l.ran.others;
              clean = l.clean c.clean;
            })
            k l.result)
        (λ e s₁ h.
          Failed-Denied db texts redis client user request d e (view s₁) w.server
            (library-Denied db texts redis request d _ e h.0 (others_trans _ _ _ c.durable h.1)) k)
  cached_law (some r) w c same k (inl e) = absurd (ground arith)
  cached_law (some r) w c same k (inr (x, found, e)) =
      subst
        (λ j. Outcome SentHere FailedHere (cached_or_send db texts redis client user request j w))
        (sym e)
        (rw (cached_or_send-stored db texts redis client user request (transaction_response x) w)
          (record {
            entry = x;
            recorded =
                subst (λ (t : Tables). by_key request.idempotency_key t.transactions ≡ some x)
                  (sym same) found;
            response = refl;
            moved = inl c.durable;
            coherent = subst (λ t. Key t w.server) (sym same) k;
          }))

  send_money_law :
      (w : World Session Server)
      → (view w.session).seen ≡ (view w.session).durable
      → (view w.session).durable ≡ d
      → Key d w.server
      → Outcome SentHere FailedHere (send_money db texts redis client user request w)
  unfolding send_money
  send_money_law w clean same k =
      on_server-bind (λ r c. Replays texts redis request.idempotency_key d r × Key d c) (λ _ _. ⊥)
        SentHere FailedHere (check_key texts redis client request.idempotency_key) w _
        (check_key-Replays texts redis client request.idempotency_key d w.server k)
        (λ r c h.
          cached_law r (record w { server = c })
            (record { durable = subst (Others d) (sym same) (others_refl d); clean = clean }) same
            h.1 h.0)
        (λ e c h. absurd h)

-- Whatever other sessions commit meanwhile and whatever Redis does, if the cache entry of the key
-- agrees with the ledger: a payment on a session with nothing pending that returns answers with the
-- ledger entry of its key, which is durable, and either other sessions wrote all that changed, or
-- this one posted the transfer between the two users' wallets in one commit; one that raises any
-- exception but an unexpected one has left nothing of its own durable. In both cases the cache entry
-- still agrees with the ledger.
pub send_money_answers :
    (db : Database) (texts : Texts) (redis : Redis) (client : Bool) (user : Uuid)
    (request : PaymentRequest) (w : World db.Session redis.Server)
    → (db.view w.session).seen ≡ (db.view w.session).durable
    → IsCoherent texts redis request.idempotency_key (db.view w.session).durable w.server
    → Outcome
        (SentIn db texts redis client user request (db.view w.session).durable)
        (FailedIn db texts redis client user request (db.view w.session).durable)
        (send_money db texts redis client user request w)
send_money_answers db texts redis client user request w clean k =
    send_money_law db texts redis client user request _ w clean refl k
