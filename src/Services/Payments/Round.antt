-- ===== src/Services/Payments/Round.antt =====
-- One round of the retry loop of `send_money` in payment-system/app/services/payment_service.py: the
-- transfer, and what follows its commit.
use payment_system.Base.{
  ◌≡◌, ◌≢◌, refl, sym, subst, ◌∙◌, inl, inr, Bool, true, some, [], ◌∷◌, Bool-cases,
}
use payment_system.Core.Exceptions.{Exception}
use payment_system.Core.Exec.{pure, ◌>>=◌, ◌>>◌}
use payment_system.Core.Outcome.{IsUnexpected, Unexpected-IsLibrary, Outcome, Returns, Outcome-bind}
use payment_system.Models.Wallet.{Uuid, Wallet}
use payment_system.Models.Transaction.{Transaction}
use payment_system.Models.Tables.{Tables, by_key}
use payment_system.Schemas.Payment.{PaymentRequest, TransactionResponse, transaction_response}
use payment_system.Store.Session.{View}
use payment_system.Store.Database.{Database}
use payment_system.Store.Shown.{Queried}
use payment_system.Cache.Redis.{Texts, Redis}
use payment_system.Cache.Keys.{balance_key}
use payment_system.Cache.Idempotency.{store_key}
use payment_system.Cache.Idempotency.Replay.{
  IsCoherent, IsCoherent-Follows, IsCoherent-Fades, store_key-IsCoherent,
}
use payment_system.Services.World.{
  World, on_session, on_server, on_session-bind, on_server-bind, on_server-last,
}
use payment_system.Services.Transfer.{execute_transfer}
use payment_system.Services.Transfer.Trace.{Posted, Ends, Raises}
use payment_system.Services.Transfer.Money.{Posted-Follows}
use payment_system.Services.Transfer.Trace.Locks.{execute_transfer_from}
use payment_system.Services.Wallets.Found.{Clean}
use payment_system.Services.Payments.{order_of, post_commit, try_transfer}
use payment_system.Services.Payments.Outcomes.{
  Posted-recorded, Transferred, Denied-Refused, library-Denied, unexpected_Denied, Sent, Failed,
  SentIn, FailedIn, Failed-Denied,
}

module _ (db : Database) (texts : Texts) (redis : Redis) (client : Bool) (user : Uuid)
    (request : PaymentRequest) (d : Tables) where
  open db use {Session, view, Others, others_refl, others_trans, others_Follows}
  open redis use {Server, entry}

  abbrev Key : Tables → Server → Type 0
  Key t c = IsCoherent texts redis request.idempotency_key t c

  abbrev SentHere : TransactionResponse → World Session Server → Type 0
  SentHere = SentIn db texts redis client user request d

  abbrev FailedHere : Exception → World Session Server → Type 0
  FailedHere = FailedIn db texts redis client user request d

  -- The session is where it was, and the cache entry of the key agrees with the ledger.
  abbrev Stored : View → World Session Server → Type 0
  Stored v w' = (view w'.session ≡ v) × Key v.durable w'.server

  cleared_law :
      (sender receiver : Uuid) (v : View) (w : World Session Server)
      → Stored v w
      → Outcome {A = Unit {0}}
          (λ _ w'. Stored v w')
          (λ e w'. IsUnexpected e × Stored v w')
          (on_server (redis.delete_all (balance_key sender ∷ balance_key receiver ∷ [])) w)
  cleared_law sender receiver v w h =
      on_server-last _ _ _ _ (redis.delete_all (balance_key sender ∷ balance_key receiver ∷ [])) w
        (redis.delete_all_law _ w.server)
        (λ _ c k.
          (h.0, IsCoherent-Fades texts redis request.idempotency_key v.durable w.server c k.1 h.1))
        (λ e c k. (
          k.0,
          (h.0, IsCoherent-Fades texts redis request.idempotency_key v.durable w.server c k.1 h.1),
        ))

  ids_law :
      (sender receiver : Wallet) (v : View) (w : World Session Server)
      → Stored v w
      → Outcome
          (λ _ w'. Stored v w')
          (λ e w'. IsUnexpected e × Stored v w')
          ((do
            sender_id ← on_session (db.read_id sender)
            receiver_id ← on_session (db.read_id receiver)
            on_server (redis.delete_all (balance_key sender_id ∷ balance_key receiver_id ∷ [])))
            w)
  ids_law sender receiver v w h =
      on_session-bind _ _ (λ _ w'. Stored v w') (λ e w'. IsUnexpected e × Stored v w')
        (db.read_id sender) w _ (db.read_id_law sender w.session)
        (λ a s₁ m.
          on_session-bind _ _ (λ _ w'. Stored v w') (λ e w'. IsUnexpected e × Stored v w')
            (db.read_id receiver) (record w { session = s₁ }) _ (db.read_id_law receiver s₁)
            (λ b s₂ n. cleared_law a b v (record w { session = s₂ }) (n.1 ∙ (m.1 ∙ h.0), h.1))
            (λ e s₂ n. (n.0, (n.1 ∙ (m.1 ∙ h.0), h.1))))
        (λ e s₁ m. (m.0, (m.1 ∙ h.0, h.1)))

  post_commit_law :
      (sender receiver : Wallet) (r : TransactionResponse) (x : Transaction)
      (w : World Session Server)
      → r ≡ transaction_response x
      → by_key request.idempotency_key (view w.session).durable.transactions ≡ some x
      → Key (view w.session).durable w.server
      → Outcome
          (λ _ w'. Stored (view w.session) w')
          (λ e w'. IsUnexpected e × Stored (view w.session) w')
          (post_commit db texts redis client request sender receiver r w)
  unfolding post_commit
  post_commit_law sender receiver r x w e found h = elim (Bool-cases client) [
    | inl given ↦ rw given (
        on_server-bind _ _ (λ _ w'. Stored (view w.session) w')
          (λ e w'. IsUnexpected e × Stored (view w.session) w')
          (store_key texts redis true request.idempotency_key r 201) w _
          (subst
            (λ y.
              Returns (λ _ c. Key (view w.session).durable c)
                (store_key texts redis true request.idempotency_key y 201 w.server))
            (sym e)
            (store_key-IsCoherent texts redis true request.idempotency_key (view w.session).durable
              x w.server found h))
          (λ _ c k. ids_law sender receiver (view w.session) (record w { server = c }) (refl, k))
          (λ e c k. absurd k))
    | inr absent ↦ rw absent (refl, h)
  ]

  -- After the commit.
  posted_law :
      (sender receiver : Wallet) (r : TransactionResponse) (s : Session) (c : Server)
      → Key d c
      → Transferred db texts redis user request d r (view s).durable
      → Outcome SentHere FailedHere (
          (post_commit db texts redis client request sender receiver r >> pure r)
            (record { session = s; server = c }))
  posted_law sender receiver r s c h t =
      let (x, found, response) = Posted-recorded db texts redis _ d (view s).durable r t.posted in
      let follows = Posted-Follows db _ d (view s).durable r t.posted in
      let key =
        IsCoherent-Follows texts redis request.idempotency_key d (view s).durable c follows h in
      Outcome-bind (λ _ w'. Stored (view s) w') SentHere
        (λ e w'. IsUnexpected e × Stored (view s) w') FailedHere
        (post_commit db texts redis client request sender receiver r
          (record { session = s; server = c }))
        _ (post_commit_law sender receiver r x _ response found key)
        (λ _ w' k.
          subst (λ v. Sent db texts redis client user request d r v w'.server) (sym k.0)
            (record {
              entry = x;
              recorded = found;
              response = response;
              moved = inr t;
              coherent = k.1;
            }))
        (λ e w' k.
          subst (λ v. Failed db texts redis client user request d e v w'.server) (sym k.1.0)
            (record {
              denied = unexpected_Denied db texts redis request d (view s).durable e k.0 follows;
              coherent = k.1.1;
              before = inr k.0;
            }))

  -- The transfer with the ids that were read, and what follows it.
  executed_law :
      (sender receiver : Wallet) (a b : Uuid) (s : Session) (c : Server)
      → a ≡ sender.id
      → b ≡ receiver.id
      → Clean db texts redis d (view s)
      → Key d c
      → Queried db user d sender
      → Queried db request.receiver_id d receiver
      → sender.id ≢ receiver.id
      → Outcome SentHere FailedHere (
          (do
            result ← on_session (execute_transfer db (order_of request a b))
            post_commit db texts redis client request sender receiver result
            pure result)
            (record { session = s; server = c }))
  executed_law sender receiver a b s c ea eb clean h su ru distinct =
      on_session-bind (λ r s₁. Ends db (order_of request a b) d d r s₁)
        (λ e s₁. Raises db (order_of request a b) d d e s₁) SentHere FailedHere
        (execute_transfer db (order_of request a b)) (record { session = s; server = c }) _
        (execute_transfer_from db (order_of request a b) d d (λ e. distinct (sym ea ∙ (e ∙ eb))) s
          (record {
            begun = subst (Others d) (sym clean.clean) clean.durable;
            durable = clean.durable;
          }))
        (λ r s₁ p. posted_law sender receiver r s₁ c h (record {
          sender = sender;
          receiver = receiver;
          sender_row = su;
          receiver_row = ru;
          distinct = distinct;
          posted =
              subst (λ y. Posted db (order_of request y receiver.id) d r (view s₁).durable) ea
                (subst (λ z. Posted db (order_of request a z) d r (view s₁).durable) eb p);
        }))
        (λ e s₁ f.
          Failed-Denied db texts redis client user request d e (view s₁) c
            (Denied-Refused db texts redis request a b d (view s₁).durable e f) h)

  -- One round, from a session with nothing pending.
  pub try_transfer_law :
      (sender receiver : Wallet) (w : World Session Server)
      → Clean db texts redis d (view w.session)
      → Key d w.server
      → Queried db user d sender
      → Queried db request.receiver_id d receiver
      → sender.id ≢ receiver.id
      → Outcome SentHere FailedHere (try_transfer db texts redis client request sender receiver w)
  unfolding try_transfer
  try_transfer_law sender receiver w c h su ru distinct =
      on_session-bind _ _ SentHere FailedHere (db.read_id sender) w _
        (db.read_id_law sender w.session)
        (λ a s₁ m.
          on_session-bind _ _ SentHere FailedHere (db.read_id receiver) (record w { session = s₁ })
            _ (db.read_id_law receiver s₁)
            (λ b s₂ n.
              executed_law sender receiver a b s₂ w.server m.0 n.0
                (record {
                  durable = subst (λ v. Others d v.durable) (sym (n.1 ∙ m.1)) c.durable;
                  clean = subst (λ v. v.seen ≡ v.durable) (sym (n.1 ∙ m.1)) c.clean;
                })
                h su ru distinct)
            (λ e s₂ n.
              Failed-Denied db texts redis client user request d e (view s₂) w.server
                (library-Denied db texts redis request d _ e (Unexpected-IsLibrary e n.0)
                  (subst (λ v. Others d v.durable) (sym (n.1 ∙ m.1)) c.durable))
                h))
        (λ e s₁ m.
          Failed-Denied db texts redis client user request d e (view s₁) w.server
            (library-Denied db texts redis request d _ e (Unexpected-IsLibrary e m.0)
              (subst (λ v. Others d v.durable) (sym m.1) c.durable))
            h)
