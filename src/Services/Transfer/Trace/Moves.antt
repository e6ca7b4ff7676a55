-- ===== src/Services/Transfer/Trace/Moves.antt =====
-- The debit and the credit of `_execute_transfer` in payment-system/app/services/payment_service.py.
use payment_system.Base.{sym, inl, Bool, true, false}
use payment_system.Core.Exceptions.{Exception, optimistic_lock}
use payment_system.Core.Exec.{Exec, resume}
use payment_system.Core.Outcome.{Outcome, Outcome-bind}
use payment_system.Models.Wallet.{Wallet}
use payment_system.Models.Tables.{Tables}
use payment_system.Store.Session.{View}
use payment_system.Store.Database.{Database}
use payment_system.Store.Versioned.{Untouched, Placed, Answered, update_balance_law}
use payment_system.Store.Steps.{Placed-Known, Placed-row, Placed-Write, Placed-Kept}
use payment_system.Services.Transfer.{Order, require_update, credit_receiver, move_money}
use payment_system.Services.Transfer.Trace.{
  debited, credited, library-Refused, Ends, Raises, Ready, Debited, Credited,
}
use payment_system.Services.Transfer.Trace.Entry.{record_transfer_law}

-- A refused update raises, and what follows runs only after a granted one.
Outcome-require :
    (db : Database) {B : Type 0} (P : Bool → Type 0) (Q : B → db.Session → Type 0)
    (F : Exception → db.Session → Type 0) (granted : Bool) (s : db.Session)
    (f : Unit {0} → Exec db.Session B)
    → P granted
    → (P true → Outcome Q F (f tt s))
    → (P false → F optimistic_lock s)
    → Outcome Q F (resume (require_update db granted s) f)
Outcome-require db P Q F true s f h granted refused = granted h
Outcome-require db P Q F false s f h granted refused = refused h

module _ (db : Database) (o : Order) (from d : Tables) (sender receiver : Wallet) where
  open db use {Session, view, others_trans}

  Ready-Debited :
      {v v' : View}
      → Ready db o from d sender receiver v
      → Placed db sender.id sender.version (debited db o sender) v v'
      → Debited db o from d sender receiver v'
  Ready-Debited {v} c p =
      let (write, row) = Placed-Write db sender p (Placed-row db sender c.knows_sender p) in
      record {
        ready = v;
        was = c;
        durable = others_trans _ _ _ c.durable p.ran.others;
        debit = write;
        sender_row = row;
        knows_receiver = Placed-Known db p receiver c.distinct c.knows_receiver;
      }

  Debited-Credited :
      {v v' : View}
      → Debited db o from d sender receiver v
      → Placed db receiver.id receiver.version (credited db o receiver) v v'
      → Credited db o from d sender receiver v'
  Debited-Credited {v} c p =
      let (write, row) = Placed-Write db receiver p (Placed-row db receiver c.knows_receiver p) in
      record {
        middle = v;
        was = c;
        durable = others_trans _ _ _ c.durable p.ran.others;
        credit = write;
        sender_row =
            Placed-Kept db receiver p sender.id _ (λ e. c.was.distinct (sym e)) c.sender_row;
        receiver_row = row;
      }

  credit_receiver_law :
      (s : Session)
      → Debited db o from d sender receiver (view s)
      → Outcome (Ends db o from d) (Raises db o from d) (credit_receiver db o sender receiver s)
  unfolding credit_receiver
  credit_receiver_law s c =
      Outcome-bind _ _ (Untouched db (view s).durable) _ _ _
        (update_balance_law db receiver.id (credited db o receiver) receiver.version s)
        (λ granted s₁ answer.
          Outcome-require db
            (λ b.
              Answered db receiver.id receiver.version (credited db o receiver) (view s) b
                (view s₁))
            _ _ granted s₁ _ answer
            (λ p. record_transfer_law db o from d sender receiver s₁ (Debited-Credited c p))
            (λ same. others_trans _ _ _ c.durable same))
        (λ e s₁ h. library-Refused db o from d _ e h.0 (inl (others_trans _ _ _ c.durable h.1)))

  pub move_money_law :
      (s : Session)
      → Ready db o from d sender receiver (view s)
      → Outcome (Ends db o from d) (Raises db o from d) (move_money db o sender receiver s)
  unfolding move_money
  move_money_law s c =
      Outcome-bind _ _ (Untouched db (view s).durable) _ _ _
        (update_balance_law db sender.id (debited db o sender) sender.version s)
        (λ granted s₁ answer.
          Outcome-require db
            (λ b. Answered db sender.id sender.version (debited db o sender) (view s) b (view s₁)) _
            _ granted s₁ _ answer (λ p. credit_receiver_law s₁ (Ready-Debited c p))
            (λ same. others_trans _ _ _ c.durable same))
        (λ e s₁ h. library-Refused db o from d _ e h.0 (inl (others_trans _ _ _ c.durable h.1)))
