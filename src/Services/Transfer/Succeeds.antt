-- ===== src/Services/Transfer/Succeeds.antt =====
-- A transfer of payment-system/app/services/payment_service.py that nothing disturbs goes through.
use payment_system.Base.{
  ◌+◌, ◌-◌, ◌≤◌, ◌<◌, ◌≡◌, ◌≢◌, refl, sym, subst, ap, ◌∙◌, inl, inr, true, false, none, some, ltb,
  arith,
}
use payment_system.Core.Exec.{Exec, ◌>>=◌, ◌>>◌}
use payment_system.Core.Outcome.{Returns, Outcome-both, Returns-bind}
use payment_system.Models.Wallet.{Uuid, Time, Wallet}
use payment_system.Models.Transaction.{passes_checks}
use payment_system.Models.Tables.{Tables, wallet_by_id, by_key}
use payment_system.Models.Tables.Writes.{put, wallet_by_id-put_ne, id_of_found}
use payment_system.Schemas.Payment.{TransactionResponse}
use payment_system.Store.Database.{Database}
use payment_system.Store.Calm.{IsCalm, calm_lock, calm_update}
use payment_system.Store.Repositories.{get_by_id_for_update, update_balance, create}
use payment_system.Services.Transfer.{
  Order, roles, draft_of, require_update, record_transfer, credit_receiver, move_money,
  check_balance, with_locked, execute_transfer,
}
use payment_system.Services.Transfer.LockOrder.{lock_order_sorted}
use payment_system.Services.Transfer.Trace.{Ends, Raises}
use payment_system.Services.Transfer.Trace.Locks.{execute_transfer_posts_or_leaves}

-- The two wallets stand in the tables, the sender's covers a positive amount, and the key is new.
pub record Funded (o : Order) (t : Tables) (a b : Wallet) : Type 0 where
  pub sender : wallet_by_id o.sender_wallet_id t.wallets ≡ some a
  pub receiver : wallet_by_id o.receiver_wallet_id t.wallets ≡ some b
  pub distinct : o.sender_wallet_id ≢ o.receiver_wallet_id
  pub covered : o.amount ≤ a.balance
  pub positive : 0 < o.amount
  pub unused : by_key o.idempotency_key t.transactions ≡ none

module _ (db : Database) (calm : IsCalm db) (o : Order) where
  open db use {Session, view}

  abbrev Done : Exec Session TransactionResponse → Session → Type 0
  Done m s = Returns (λ _ _. Unit {0}) (m s)

  record_transfer_returns :
      (a b : Wallet) (s : Session)
      → by_key o.idempotency_key (view s).seen.transactions ≡ none
      → passes_checks (draft_of o a b) ≡ true
      → Done (record_transfer db o a b) s
  unfolding record_transfer create
  record_transfer_returns a b s unused checked =
      Returns-bind _ _ _ (db.insert_transaction (draft_of o a b) s) _
        (calm.inserts (draft_of o a b) s unused checked)
        (λ x s₁ _. Returns-bind _ _ _ (db.commit s₁) _ (calm.commits s₁) (λ _ s₂ _.
          Returns-bind _ _ _ (db.refresh_transaction x s₂) _ (calm.refreshes x s₂) (λ _ _ _. tt)))

  credit_receiver_returns :
      (a b : Wallet) (s : Session)
      → wallet_by_id b.id (view s).seen.wallets ≡ some b
      → by_key o.idempotency_key (view s).seen.transactions ≡ none
      → passes_checks (draft_of o a b) ≡ true
      → Done (credit_receiver db o a b) s
  unfolding credit_receiver
  credit_receiver_returns a b s found unused checked =
      Returns-bind
        (λ updated s₁.
          (updated ≡ true)
          × ((now : Time) × ((view s₁).seen ≡ record (view s).seen {
            wallets = put b.id b.version (b.balance + o.amount) now (view s).seen.wallets;
          })))
        _ _ (update_balance db b.id (b.balance + o.amount) b.version s) _
        (calm_update db calm b b.id (b.balance + o.amount) b.version s found refl)
        (λ updated s₁ u.
          subst (λ ok. Done (require_update db ok >> record_transfer db o a b) s₁) (sym u.0)
            (record_transfer_returns a b s₁
              (ap (λ (t : Tables). by_key o.idempotency_key t.transactions) u.1.1 ∙ unused)
              checked))

  move_money_returns :
      (a b : Wallet) (s : Session)
      → wallet_by_id a.id (view s).seen.wallets ≡ some a
      → wallet_by_id b.id (view s).seen.wallets ≡ some b
      → b.id ≢ a.id
      → by_key o.idempotency_key (view s).seen.transactions ≡ none
      → passes_checks (draft_of o a b) ≡ true
      → Done (move_money db o a b) s
  unfolding move_money
  move_money_returns a b s sender receiver distinct unused checked =
      Returns-bind
        (λ updated s₁.
          (updated ≡ true)
          × ((now : Time) × ((view s₁).seen ≡ record (view s).seen {
            wallets = put a.id a.version (a.balance - o.amount) now (view s).seen.wallets;
          })))
        _ _ (update_balance db a.id (a.balance - o.amount) a.version s) _
        (calm_update db calm a a.id (a.balance - o.amount) a.version s sender refl)
        (λ updated s₁ u.
          subst (λ ok. Done (require_update db ok >> credit_receiver db o a b) s₁) (sym u.0)
            (credit_receiver_returns a b s₁
              (ap (λ (t : Tables). wallet_by_id b.id t.wallets) u.1.1
                ∙ (wallet_by_id-put_ne a.id a.version (a.balance - o.amount) u.1.0 b.id
                      (view s).seen.wallets distinct
                    ∙ receiver))
              (ap (λ (t : Tables). by_key o.idempotency_key t.transactions) u.1.1 ∙ unused)
              checked))

  roles_own :
      (a b : Wallet)
      → a.id ≡ o.sender_wallet_id
      → b.id ≡ o.receiver_wallet_id
      → o.sender_wallet_id ≢ o.receiver_wallet_id
      → (roles o.sender_wallet_id a b ≡ (a, b)) × (roles o.sender_wallet_id b a ≡ (a, b))
  roles_own a b p q ne = ground arith

  module _ (a b : Wallet) where
    check_balance_returns :
        (s : Session) → Funded o (view s).seen a b → Done (check_balance db o (a, b)) s
    unfolding check_balance
    check_balance_returns s f =
        let p = id_of_found o.sender_wallet_id a (view s).seen.wallets f.sender in
        let q = id_of_found o.receiver_wallet_id b (view s).seen.wallets f.receiver in
        let enough : ltb a.balance o.amount ≡ false = ground (arith, f.covered) in
        rw enough (
          move_money_returns a b s
            (subst (λ i. wallet_by_id i (view s).seen.wallets ≡ some a) (sym p) f.sender)
            (subst (λ i. wallet_by_id i (view s).seen.wallets ≡ some b) (sym q) f.receiver)
            (λ e. f.distinct (sym p ∙ (sym e ∙ q))) f.unused
            (ground (arith, f.positive, f.distinct)))

    locked_returns :
        (s : Session)
        → Funded o (view s).seen a b
        → Done (with_locked db o (some a) (some b)) s × Done (with_locked db o (some b) (some a)) s
    unfolding with_locked
    locked_returns s f =
        let p = id_of_found o.sender_wallet_id a (view s).seen.wallets f.sender in
        let q = id_of_found o.receiver_wallet_id b (view s).seen.wallets f.receiver in
        let r = roles_own a b p q f.distinct in
        (rw r.0 (check_balance_returns s f), rw r.1 (check_balance_returns s f))

    -- Two lock queries, and what follows them.
    lock_both :
        (i j : Uuid) (x y : Wallet) (s : Session)
        → wallet_by_id i (view s).seen.wallets ≡ some x
        → wallet_by_id j (view s).seen.wallets ≡ some y
        → ((s' : Session)
            → (view s').seen ≡ (view s).seen
            → Done (with_locked db o (some x) (some y)) s')
        → Done
            (get_by_id_for_update db i >>= λ first.
              get_by_id_for_update db j >>= λ second. with_locked db o first second)
            s
    lock_both i j x y s ex ey rest =
        Returns-bind
          (λ r s₁. (r ≡ wallet_by_id i (view s).seen.wallets) × ((view s₁).seen ≡ (view s).seen)) _
          _ (get_by_id_for_update db i s) _ (calm_lock db calm i s)
          (λ r s₁ h.
            Returns-bind
              (λ r' s₂.
                (r' ≡ wallet_by_id j (view s₁).seen.wallets) × ((view s₂).seen ≡ (view s₁).seen))
              _ _ (get_by_id_for_update db j s₁) _ (calm_lock db calm j s₁)
              (λ r' s₂ k.
                let er = h.0 ∙ ex in
                let er' = k.0 ∙ (ap (λ (t : Tables). wallet_by_id j t.wallets) h.1 ∙ ey) in
                subst (λ c. Done (with_locked db o c r') s₂) (sym er)
                  (subst (λ c. Done (with_locked db o (some x) c) s₂) (sym er')
                    (rest s₂ (k.1 ∙ h.1)))))

    pub execute_transfer_returns :
        (s : Session) → Funded o (view s).seen a b → Done (execute_transfer db o) s
    unfolding execute_transfer
    execute_transfer_returns s f =
        elim (lock_order_sorted o.sender_wallet_id o.receiver_wallet_id).1 [
          | inl e ↦ rw e (
              lock_both o.sender_wallet_id o.receiver_wallet_id a b s f.sender f.receiver
                (λ s' same. (locked_returns s' (subst (λ t. Funded o t a b) (sym same) f)).0))
          | inr e ↦ rw e (
              lock_both o.receiver_wallet_id o.sender_wallet_id b a s f.receiver f.sender
                (λ s' same. (locked_returns s' (subst (λ t. Funded o t a b) (sym same) f)).1))
        ]

-- On a calm database, where nothing fails and nobody else commits, a transfer of a positive amount
-- that the sender's wallet covers, between two wallets of the tables and under a new key, returns,
-- and has posted the transfer.
pub execute_transfer_succeeds :
    (db : Database) (calm : IsCalm db) (o : Order) (a b : Wallet) (s : db.Session)
    → Funded o (db.view s).seen a b
    → Returns (Ends db o (db.view s).seen (db.view s).durable) (execute_transfer db o s)
execute_transfer_succeeds db calm o a b s f =
    Outcome-both _ (Raises db o (db.view s).seen (db.view s).durable) (λ _ _. Unit {0})
      (execute_transfer db o s) (execute_transfer_posts_or_leaves db o s f.distinct)
      (execute_transfer_returns db calm o a b s f)
