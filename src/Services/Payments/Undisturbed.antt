-- ===== src/Services/Payments/Undisturbed.antt =====
-- The retry loop of payment-system/app/services/payment_service.py where nothing disturbs it: the
-- first round goes through.
use payment_system.Base.{
  ℕ, suc, ◌≤◌, ◌<◌, ◌≡◌, ◌≢◌, sym, subst, ◌∙◌, inl, inr, Bool, true, String, none, some, List, [],
  ◌∷◌, find, ◌==◌, Bool-cases,
}
use payment_system.Core.Exec.{Exec}
use payment_system.Core.Outcome.{Returns, Outcome-both, Outcome-catch, Returns-bind}
use payment_system.Models.Wallet.{Uuid, Wallet}
use payment_system.Models.Tables.{Tables, by_key, IsKeyed}
use payment_system.Models.Tables.Writes.{found_by_id}
use payment_system.Schemas.Payment.{PaymentRequest, TransactionResponse}
use payment_system.Store.Session.{View}
use payment_system.Store.Database.{Database}
use payment_system.Store.Calm.{IsCalm}
use payment_system.Cache.Redis.{Texts, Redis}
use payment_system.Cache.Keys.{balance_key}
use payment_system.Cache.Idempotency.{store_key}
use payment_system.Cache.Idempotency.Replay.{store_key-Returns}
use payment_system.Services.World.{World, on_server-bind, on_server-last, session_step}
use payment_system.Services.Transfer.{execute_transfer}
use payment_system.Services.Transfer.Succeeds.{Funded, execute_transfer_returns}
use payment_system.Services.Payments.{order_of, post_commit, try_transfer, attempts}

-- Both users have a wallet, the sender's covers a positive amount, and the key is new.
pub record Payable (user : Uuid) (request : PaymentRequest) (t : Tables) (a b : Wallet)
    : Type 0 where
  pub keyed : IsKeyed t.wallets
  pub sender : find (λ w. w.user_id == user) t.wallets ≡ some a
  pub receiver : find (λ w. w.user_id == request.receiver_id) t.wallets ≡ some b
  pub distinct : a.id ≢ b.id
  pub covered : request.amount ≤ a.balance
  pub positive : 0 < request.amount
  pub unused : by_key request.idempotency_key t.transactions ≡ none

module _ (db : Database) (texts : Texts) (redis : Redis) (calm : IsCalm db)
    (deletes : (ks : List String) (c : redis.Server)
      → Returns (λ _ _. Unit {0}) (redis.delete_all ks c))
    (client : Bool) (user : Uuid) (request : PaymentRequest) (a b : Wallet) where
  open db use {Session, view}
  open redis use {Server}

  abbrev Done : {A : Type 0} → Exec (World Session Server) A → World Session Server → Type 0
  Done m w = Returns (λ _ _. Unit {0}) (m w)

  read_id_calm :
      (o : Wallet) (s : Session)
      → Returns (λ id s'. (id ≡ o.id) × (view s' ≡ view s)) (db.read_id o s)
  read_id_calm o s = Outcome-both _ _ _ (db.read_id o s) (db.read_id_law o s) (calm.reads o s)

  post_commit_returns :
      (r : TransactionResponse) (w : World Session Server)
      → Done (post_commit db texts redis client request a b r) w
  unfolding post_commit
  post_commit_returns r w = elim (Bool-cases client) [
    | inl given ↦ rw given (
        on_server-bind (λ _ _. Unit {0}) (λ _ _. ⊥) (λ _ _. Unit {0}) (λ _ _. ⊥)
          (store_key texts redis true request.idempotency_key r 201) w _
          (store_key-Returns texts redis true request.idempotency_key r 201 w.server)
          (λ _ c _.
            session_step _ (λ _ _. Unit {0}) (db.read_id a) (record w { server = c }) _
              (read_id_calm a w.session)
              (λ i s₁ _.
                session_step _ (λ _ _. Unit {0}) (db.read_id b)
                  (record { session = s₁; server = c }) _ (read_id_calm b s₁)
                  (λ j s₂ _.
                    on_server-last (λ _ _. Unit {0}) (λ _ _. ⊥) (λ _ _. Unit {0}) (λ _ _. ⊥)
                      (redis.delete_all (balance_key i ∷ balance_key j ∷ []))
                      (record { session = s₂; server = c })
                      (deletes (balance_key i ∷ balance_key j ∷ []) c) (λ _ _ _. tt) (λ _ _ x. x))))
          (λ _ _ x. x))
    | inr absent ↦ rw absent tt
  ]

  Payable-Funded :
      (t : Tables) → Payable user request t a b → Funded (order_of request a.id b.id) t a b
  Payable-Funded t p = record {
    sender = found_by_id _ a t.wallets p.keyed p.sender;
    receiver = found_by_id _ b t.wallets p.keyed p.receiver;
    distinct = p.distinct;
    covered = p.covered;
    positive = p.positive;
    unused = p.unused;
  }

  funded :
      (i j : Uuid) (v v₁ v₂ : View)
      → i ≡ a.id
      → j ≡ b.id
      → v₁ ≡ v
      → v₂ ≡ v₁
      → Payable user request v.seen a b
      → Funded (order_of request i j) v₂.seen a b
  funded i j v v₁ v₂ ei ej e₁ e₂ p =
      subst (λ y. Funded (order_of request y j) v₂.seen a b) (sym ei)
        (subst (λ z. Funded (order_of request a.id z) v₂.seen a b) (sym ej)
          (subst (λ (u : View). Funded (order_of request a.id b.id) u.seen a b) (sym (e₂ ∙ e₁))
            (Payable-Funded v.seen p)))

  try_transfer_returns :
      (w : World Session Server)
      → Payable user request (view w.session).seen a b
      → Done (try_transfer db texts redis client request a b) w
  unfolding try_transfer
  try_transfer_returns w p =
      session_step _ (λ _ _. Unit {0}) (db.read_id a) w _ (read_id_calm a w.session)
        (λ i s₁ h.
          session_step _ (λ _ _. Unit {0}) (db.read_id b) (record w { session = s₁ }) _
            (read_id_calm b s₁)
            (λ j s₂ k.
              session_step (λ _ _. Unit {0}) (λ _ _. Unit {0})
                (execute_transfer db (order_of request i j)) (record w { session = s₂ }) _
                (execute_transfer_returns db calm (order_of request i j) a b s₂
                  (funded i j (view w.session) (view s₁) (view s₂) h.0 k.0 h.1 k.1 p))
                (λ r s₃ _.
                  Returns-bind (λ _ _. Unit {0}) (λ _ _. Unit {0}) (λ _ _. ⊥) _ _
                    (post_commit_returns r (record w { session = s₃ })) (λ _ _ _. tt))))

  pub attempts_returns :
      (left : ℕ) (w : World Session Server)
      → Payable user request (view w.session).seen a b
      → Done (attempts db texts redis client request a b (suc left)) w
  unfolding attempts
  attempts_returns left w p =
      Outcome-catch (λ _ _. Unit {0}) (λ _ _. Unit {0}) (λ _ _. ⊥) (λ _ _. ⊥)
        (try_transfer db texts redis client request a b w) _ (try_transfer_returns w p)
        (λ _ _ _. tt) (λ _ _ x. absurd x)
