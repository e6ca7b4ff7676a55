-- ===== src/Services/Transfer/Trace/Locks.antt =====
-- The two lock queries and the balance test of `_execute_transfer` in
-- payment-system/app/services/payment_service.py, and the transfer as a whole.
use payment_system.Base.{
  ◌≡◌, ◌≢◌, refl, sym, ◌∙◌, ◌⊎◌, inl, inr, Option, none, some, arith, ltb, Bool-cases,
}
use payment_system.Core.Outcome.{Outcome, Outcome-bind}
use payment_system.Models.Wallet.{Uuid, Wallet}
use payment_system.Models.Tables.{Tables}
use payment_system.Store.Session.{View}
use payment_system.Store.Database.{Database}
use payment_system.Store.Versioned.{
  Untouched, Known, Ran-Known, Lock, AfterLock, get_by_id_for_update_law,
}
use payment_system.Services.Transfer.{
  Order, lock_order, roles, check_balance, with_locked, execute_transfer,
}
use payment_system.Services.Transfer.Trace.{library-Refused, Ends, Raises}
use payment_system.Services.Transfer.Trace.Moves.{move_money_law}

-- The locked wallets get their roles by id, whichever was locked first.
roles_lem :
    (s r : Uuid) (first second : Wallet)
    → s ≢ r
    → first.id ≡ (lock_order s r).0
    → second.id ≡ (lock_order s r).1
    → ((roles s first second ≡ (first, second)) × (first.id ≡ s) × (second.id ≡ r))
      ⊎ ((roles s first second ≡ (second, first)) × (second.id ≡ s) × (first.id ≡ r))
unfolding lock_order
roles_lem s r first second ne p q = ground arith

module _ (db : Database) (o : Order) (from d : Tables) where
  open db use {Session, view, Others, others_trans}

  -- Other sessions' commits only, so far.
  pub record Waiting (v : View) : Type 0 where
    pub begun : Others from v.seen
    pub durable : Others d v.durable

  module _ (distinct : o.sender_wallet_id ≢ o.receiver_wallet_id) where
    check_balance_law :
        (sender receiver : Wallet) (s : Session)
        → Waiting (view s)
        → Known db (view s) sender
        → Known db (view s) receiver
        → sender.id ≡ o.sender_wallet_id
        → receiver.id ≡ o.receiver_wallet_id
        → Outcome (Ends db o from d) (Raises db o from d) (check_balance db o (sender, receiver) s)
    unfolding check_balance
    check_balance_law sender receiver s w ks kr si ri =
        elim (Bool-cases (ltb sender.balance o.amount)) [
          | inl short ↦ rw short (refl, ground arith, w.durable)
          | inr enough ↦ rw enough (
              move_money_law db o from d sender receiver s (record {
                begun = w.begun;
                durable = w.durable;
                knows_sender = ks;
                knows_receiver = kr;
                sender_id = si;
                receiver_id = ri;
                distinct = λ e. distinct (sym si ∙ (sym e ∙ ri));
                covered = ground arith;
              }))
        ]

    with_locked_law :
        (first second : Option Wallet) (s : Session)
        → Waiting (view s)
        → Lock db (lock_order o.sender_wallet_id o.receiver_wallet_id).0 first (view s)
        → Lock db (lock_order o.sender_wallet_id o.receiver_wallet_id).1 second (view s)
        → Outcome (Ends db o from d) (Raises db o from d) (with_locked db o first second s)
    unfolding with_locked
    with_locked_law none second s w l m = w.durable
    with_locked_law (some first) none s w l m = w.durable
    with_locked_law (some first) (some second) s w l m =
        elim (roles_lem o.sender_wallet_id o.receiver_wallet_id first second distinct l.1 m.1) [
          | inl (e, si, ri) ↦ rw e (check_balance_law first second s w l.0 m.0 si ri)
          | inr (e, si, ri) ↦ rw e (check_balance_law second first s w m.0 l.0 si ri)
        ]

    Waiting-AfterLock :
        {id : Uuid} {r : Option Wallet} {v v' : View}
        → Waiting v
        → AfterLock db id v r v'
        → Waiting v'
    Waiting-AfterLock w l = record {
      begun = others_trans _ _ _ w.begun l.ran.arrived;
      durable = others_trans _ _ _ w.durable l.ran.others;
    }

    Lock-AfterLock :
        (a id : Uuid) (first r : Option Wallet) (v v' : View)
        → Lock db a first v
        → AfterLock db id v r v'
        → Lock db a first v'
    Lock-AfterLock a id none r v v' h l = tt
    Lock-AfterLock a id (some o) r v v' h l = (Ran-Known db v v' o l.ran h.0, h.1)

    pub execute_transfer_from :
        (s : Session)
        → Waiting (view s)
        → Outcome (Ends db o from d) (Raises db o from d) (execute_transfer db o s)
    unfolding execute_transfer
    execute_transfer_from s w =
        let first_id = (lock_order o.sender_wallet_id o.receiver_wallet_id).0 in
        let second_id = (lock_order o.sender_wallet_id o.receiver_wallet_id).1 in
        Outcome-bind (λ first s₁. AfterLock db first_id (view s) first (view s₁)) _
          (Untouched db (view s).durable) _ _ _ (get_by_id_for_update_law db _ s)
          (λ first s₁ l.
            Outcome-bind (λ second s₂. AfterLock db second_id (view s₁) second (view s₂)) _
              (Untouched db (view s₁).durable) _ _ _ (get_by_id_for_update_law db _ s₁)
              (λ second s₂ m.
                with_locked_law first second s₂ (Waiting-AfterLock (Waiting-AfterLock w l) m)
                  (Lock-AfterLock _ _ first second (view s₁) (view s₂) l.lock m) m.lock)
              (λ e s₂ h.
                library-Refused db o from d _ e h.0
                  (inl (others_trans _ _ _ (Waiting-AfterLock w l).durable h.1))))
          (λ e s₁ h. library-Refused db o from d _ e h.0 (inl (others_trans _ _ _ w.durable h.1)))

-- Whatever other sessions commit meanwhile, a transfer between two wallets that returns has debited
-- the sender, credited the receiver and written the ledger entry in one commit, and one that raises
-- any exception but an unexpected one has left nothing of this session durable.
pub execute_transfer_posts_or_leaves :
    (db : Database) (o : Order) (s : db.Session)
    → o.sender_wallet_id ≢ o.receiver_wallet_id
    → Outcome
        (Ends db o (db.view s).seen (db.view s).durable)
        (Raises db o (db.view s).seen (db.view s).durable)
        (execute_transfer db o s)
execute_transfer_posts_or_leaves db o s distinct =
    execute_transfer_from db o _ _ distinct s
      (record { begun = db.others_refl _; durable = db.others_refl _ })
