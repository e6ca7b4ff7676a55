-- ===== src/Services/Payments/Lost.antt =====
-- What a Redis failure after the commit does to the answer of
-- payment-system/app/services/payment_service.py.
use payment_system.Base.{◌≡◌, sym, subst, ◌∙◌, String, true, some, List, [], ◌∷◌, ℕ, suc}
use payment_system.Core.Exceptions.{Exception, unexpected}
use payment_system.Core.Outcome.{
  IsUnexpected, Outcome, Returns, Outcome-both, Outcome-catch, Outcome-bind,
}
use payment_system.Models.Wallet.{Uuid, Wallet}
use payment_system.Models.Transaction.{Transaction}
use payment_system.Models.Tables.{Tables, by_key}
use payment_system.Schemas.Payment.{PaymentRequest, TransactionResponse}
use payment_system.Store.Session.{View, RolledBack}
use payment_system.Store.Database.{Database}
use payment_system.Store.Calm.{IsCalm}
use payment_system.Cache.Redis.{Texts, Redis}
use payment_system.Cache.Keys.{balance_key}
use payment_system.Cache.Idempotency.{store_key}
use payment_system.Cache.Idempotency.Replay.{store_key-Returns}
use payment_system.Services.World.{World, on_session-bind, on_server-bind, on_server-last}
use payment_system.Services.Transfer.{execute_transfer}
use payment_system.Services.Transfer.Trace.{Ends}
use payment_system.Services.Transfer.Succeeds.{Funded, execute_transfer_succeeds}
use payment_system.Services.Payments.{order_of, post_commit, try_transfer, handle, attempts}
use payment_system.Services.Payments.Outcomes.{Posted-recorded}

module _ (db : Database) (texts : Texts) (redis : Redis) (calm : IsCalm db)
    (fails : (ks : List String) (c : redis.Server)
      → Outcome (λ _ _. ⊥) (λ e _. IsUnexpected e) (redis.delete_all ks c))
    (request : PaymentRequest) (a b : Wallet) where
  open db use {Session, view}
  open redis use {Server}

  read_id_calm :
      (o : Wallet) (s : Session)
      → Returns (λ id s'. (id ≡ o.id) × (view s' ≡ view s)) (db.read_id o s)
  read_id_calm o s = Outcome-both _ _ _ (db.read_id o s) (db.read_id_law o s) (calm.reads o s)

  abbrev Stays : View → Exception → World Session Server → Type 0
  Stays v e w' = IsUnexpected e × (view w'.session ≡ v)

  post_commit_fails :
      (r : TransactionResponse) (w : World Session Server)
      → Outcome
          (λ _ _. ⊥)
          (Stays (view w.session))
          (post_commit db texts redis true request a b r w)
  unfolding post_commit
  post_commit_fails r w =
      on_server-bind (λ _ _. Unit {0}) (λ _ _. ⊥) (λ _ _. ⊥) (Stays (view w.session))
        (store_key texts redis true request.idempotency_key r 201) w _
        (store_key-Returns texts redis true request.idempotency_key r 201 w.server)
        (λ _ c _.
          on_session-bind _ (λ _ _. ⊥) (λ _ _. ⊥) (Stays (view w.session)) (db.read_id a)
            (record w { server = c }) _ (read_id_calm a w.session)
            (λ i s₁ h.
              on_session-bind _ (λ _ _. ⊥) (λ _ _. ⊥) (Stays (view w.session)) (db.read_id b)
                (record { session = s₁; server = c }) _ (read_id_calm b s₁)
                (λ j s₂ k.
                  on_server-last (λ _ _. ⊥) (λ e _. IsUnexpected e) (λ _ _. ⊥)
                    (Stays (view w.session)) (redis.delete_all (balance_key i ∷ balance_key j ∷ []))
                    (record { session = s₂; server = c })
                    (fails (balance_key i ∷ balance_key j ∷ []) c) (λ _ _ x. x)
                    (λ e _ u. (u, k.1 ∙ h.1)))
                (λ _ _ x. absurd x))
            (λ _ _ x. absurd x))
        (λ _ _ x. absurd x)

  -- The ledger has an entry with the key, and the exception is an unexpected one.
  abbrev pub Lost : Exception → World Session Server → Type 0
  Lost e w' =
      IsUnexpected e
      × ((x : Transaction) × (by_key request.idempotency_key (view w'.session).durable.transactions
            ≡ some x))

  try_transfer_loses :
      (w : World Session Server)
      → Funded (order_of request a.id b.id) (view w.session).seen a b
      → Outcome (λ _ _. ⊥) Lost (try_transfer db texts redis true request a b w)
  unfolding try_transfer
  try_transfer_loses w f =
      on_session-bind _ (λ _ _. ⊥) (λ _ _. ⊥) Lost (db.read_id a) w _ (read_id_calm a w.session)
        (λ i s₁ h.
          on_session-bind _ (λ _ _. ⊥) (λ _ _. ⊥) Lost (db.read_id b) (record w { session = s₁ }) _
            (read_id_calm b s₁)
            (λ j s₂ k.
              on_session-bind
                (λ r s₃. Ends db (order_of request i j) (view s₂).seen (view s₂).durable r s₃)
                (λ _ _. ⊥) (λ _ _. ⊥) Lost (execute_transfer db (order_of request i j))
                (record w { session = s₂ }) _
                (execute_transfer_succeeds db calm (order_of request i j) a b s₂
                  (funded i j s₂ h.0 k.0 (k.1 ∙ h.1)))
                (λ r s₃ p.
                  Outcome-bind (λ _ _. ⊥) (λ _ _. ⊥) (Stays (view s₃)) Lost _ _
                    (post_commit_fails r (record w { session = s₃ })) (λ _ _ x. absurd x)
                    (λ e w' l. (l.0, recorded r w' s₃ i j s₂ p l.1)))
                (λ _ _ x. absurd x))
            (λ _ _ x. absurd x))
        (λ _ _ x. absurd x)
    where
      funded :
          (i j : Uuid) (s₂ : Session)
          → i ≡ a.id
          → j ≡ b.id
          → view s₂ ≡ view w.session
          → Funded (order_of request i j) (view s₂).seen a b
      funded i j s₂ ei ej e =
          subst (λ y. Funded (order_of request y j) (view s₂).seen a b) (sym ei)
            (subst (λ z. Funded (order_of request a.id z) (view s₂).seen a b) (sym ej)
              (subst (λ (u : View). Funded (order_of request a.id b.id) u.seen a b) (sym e) f))

      recorded :
          (r : TransactionResponse) (w' : World Session Server) (s₃ : Session) (i j : Uuid)
          (s₂ : Session)
          → Ends db (order_of request i j) (view s₂).seen (view s₂).durable r s₃
          → view w'.session ≡ view s₃
          → (x : Transaction) × (by_key request.idempotency_key
                (view w'.session).durable.transactions
              ≡ some x)
      recorded r w' s₃ i j s₂ p e =
          let q =
            Posted-recorded db texts redis (order_of request i j) (view s₂).seen (view s₃).durable r
              p in
          (
            q.0,
            subst (λ (u : View). by_key request.idempotency_key u.durable.transactions ≡ some q.0)
                (sym e) q.1,
          )

  -- On a calm database, where nothing fails and nobody else commits, but with a Redis server whose
  -- pipelines of deletes fail: for a covered transfer under a new key the retry loop raises an
  -- unexpected exception, and the ledger entry of the transfer is durable.
  pub attempts_lose_response :
      (left : ℕ) (w : World Session Server)
      → Funded (order_of request a.id b.id) (view w.session).seen a b
      → Outcome (λ _ _. ⊥) Lost (attempts db texts redis true request a b (suc left) w)
  unfolding attempts
  attempts_lose_response left w f =
      Outcome-catch (λ _ _. ⊥) (λ _ _. ⊥) Lost Lost (try_transfer db texts redis true request a b w)
        _ (try_transfer_loses w f) (λ _ _ x. x) reraised
    where
      reraised :
          (e : Exception) (w' : World Session Server)
          → Lost e w'
          → Outcome
              (λ _ _. ⊥)
              Lost
              (handle db texts redis request (attempts db texts redis true request a b left) e w')
      reraised (unexpected class) w' l =
          on_session-bind (λ _ s₁. RolledBack db.Others db.Shows (view w'.session) (view s₁)) _
            (λ _ _. ⊥) Lost db.rollback w' _ (db.rollback_law w'.session)
            (λ _ s₁ r. (
              tt,
              (
                l.1.0,
                subst (λ (t : Tables). by_key request.idempotency_key t.transactions ≡ some l.1.0)
                    (calm.alone _ _ r.others) l.1.1,
              ),
            ))
            (λ e s₁ u. (
              u.0,
              (
                l.1.0,
                subst (λ (t : Tables). by_key request.idempotency_key t.transactions ≡ some l.1.0)
                    (calm.alone _ _ u.1) l.1.1,
              ),
            ))
      reraised _ w' l = absurd l.0
