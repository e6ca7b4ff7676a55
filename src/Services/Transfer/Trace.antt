-- ===== src/Services/Transfer/Trace.antt =====
-- What `_execute_transfer` of payment-system/app/services/payment_service.py does, step by step:
-- the writes that lead from the tables that the session began with to the durable ones.
pub mod Entry
pub mod Moves
pub mod Locks
use payment_system.Base.{ℕ, ◌+◌, ◌-◌, ◌≤◌, ◌<◌, ◌≡◌, ◌≢◌, ◌⊎◌, inl, inr, true, none, some, ◌∷◌}
use payment_system.Core.Exceptions.{
  Exception, wallet_not_found, insufficient_balance, optimistic_lock, integrity_error, unexpected,
}
use payment_system.Core.Outcome.{IsLibrary, IsUnexpected}
use payment_system.Models.Wallet.{Uuid, Time, Wallet}
use payment_system.Models.Transaction.{fill, passes_checks}
use payment_system.Models.Tables.{Tables, wallet_by_id, by_key}
use payment_system.Models.Tables.Writes.{new_row}
use payment_system.Schemas.Payment.{TransactionResponse, transaction_response}
use payment_system.Store.Session.{View, Follows}
use payment_system.Store.Database.{Database}
use payment_system.Store.Versioned.{Known}
use payment_system.Store.Steps.{Kept, Write, Write-Follows}
use payment_system.Store.Follows.{Follows-trans}
use payment_system.Services.Transfer.{Order, draft_of}

module _ (db : Database) (o : Order) where
  open db use {Session, view, Others, others_Follows}

  abbrev pub debited : Wallet → ℕ
  debited sender = sender.balance - o.amount

  abbrev pub credited : Wallet → ℕ
  credited receiver = receiver.balance + o.amount

  -- A transfer whose commit led from the tables `from` to the durable tables `to`: the debit, the
  -- credit and the ledger entry, each of a row as it stood when it was written, and in the committed
  -- tables both rows as the transfer left them.
  pub record Posted (from : Tables) (r : TransactionResponse) (to : Tables) : Type 0 where
    pub sender : Wallet
    pub receiver : Wallet
    pub sender_id : sender.id ≡ o.sender_wallet_id
    pub receiver_id : receiver.id ≡ o.receiver_wallet_id
    pub covered : o.amount ≤ sender.balance
    pub start : Tables
    pub begun : Others from start
    pub after_debit : Tables
    pub debit : Write db start sender (debited sender) after_debit
    pub after_credit : Tables
    pub credit : Write db after_debit receiver (credited receiver) after_credit
    pub before_entry : Tables
    pub arrived : Others after_credit before_entry
    pub id : Uuid
    pub now : Time
    pub unique : by_key o.idempotency_key before_entry.transactions ≡ none
    pub checked : passes_checks (draft_of o sender receiver) ≡ true
    pub committed : Tables
    pub published :
        Others
          (record before_entry {
            transactions = fill id now (draft_of o sender receiver) ∷ before_entry.transactions;
          })
          committed
    pub sender_row :
        wallet_by_id sender.id committed.wallets
        ≡ some (new_row (debited sender) sender.version debit.now sender)
    pub receiver_row :
        wallet_by_id receiver.id committed.wallets
        ≡ some (new_row (credited receiver) receiver.version credit.now receiver)
    pub later : Others committed to
    pub response : r ≡ transaction_response (fill id now (draft_of o sender receiver))

  -- How it may raise, with the durable tables going from `d` to `d'`. An unexpected exception may come
  -- from the commit or after it; all others leave nothing of this session durable.
  abbrev pub Refused : Tables → Tables → Tables → Exception → Type 0
  Refused from d d' wallet_not_found = Others d d'
  Refused from d d' (insufficient_balance available required) =
      (required ≡ o.amount) × (available < required) × Others d d'
  Refused from d d' optimistic_lock = Others d d'
  Refused from d d' integrity_error = Others d d'
  Refused from d d' (unexpected class) = Others d d' ⊎ Follows from d'
  Refused from d d' _ = ⊥

  pub library-Refused :
      (from d d' : Tables) (e : Exception)
      → IsLibrary e
      → Others d d' ⊎ (IsUnexpected e × Follows from d')
      → Refused from d d' e
  library-Refused from d d' integrity_error l (inl h) = h
  library-Refused from d d' integrity_error l (inr h) = absurd h.0
  library-Refused from d d' (unexpected class) l (inl h) = inl h
  library-Refused from d d' (unexpected class) l (inr h) = inr h.1
  library-Refused from d d' _ l h = absurd l

  module _ (from d : Tables) where
    abbrev pub Ends : TransactionResponse → Session → Type 0
    Ends r s' = Posted from r (view s').durable

    abbrev pub Raises : Exception → Session → Type 0
    Raises e s' = Refused from d (view s').durable e

    -- Both wallets locked and known, and nothing of this session written.
    pub record Ready (sender receiver : Wallet) (v : View) : Type 0 where
      pub begun : Others from v.seen
      pub durable : Others d v.durable
      pub knows_sender : Known db v sender
      pub knows_receiver : Known db v receiver
      pub sender_id : sender.id ≡ o.sender_wallet_id
      pub receiver_id : receiver.id ≡ o.receiver_wallet_id
      pub distinct : receiver.id ≢ sender.id
      pub covered : o.amount ≤ sender.balance

    pub record Debited (sender receiver : Wallet) (v : View) : Type 0 where
      pub ready : View
      pub was : Ready sender receiver ready
      pub durable : Others d v.durable
      pub debit : Write db ready.seen sender (debited sender) v.seen
      pub sender_row :
          Kept db v sender.id (new_row (debited sender) sender.version debit.now sender)
      pub knows_receiver : Known db v receiver

    pub record Credited (sender receiver : Wallet) (v : View) : Type 0 where
      pub middle : View
      pub was : Debited sender receiver middle
      pub durable : Others d v.durable
      pub credit : Write db middle.seen receiver (credited receiver) v.seen
      pub sender_row :
          Kept db v sender.id (new_row (debited sender) sender.version was.debit.now sender)
      pub receiver_row :
          Kept db v receiver.id (new_row (credited receiver) receiver.version credit.now receiver)

    -- Every step so far is one that other sessions may make too.
    pub Debited-Follows :
        (sender receiver : Wallet) (v : View) → Debited sender receiver v → Follows from v.seen
    Debited-Follows sender receiver v c =
        Follows-trans _ _ _ (others_Follows _ _ c.was.begun)
          (Write-Follows db sender (debited sender) c.debit)

    pub Credited-Follows :
        (sender receiver : Wallet) (v : View) → Credited sender receiver v → Follows from v.seen
    Credited-Follows sender receiver v c =
        Follows-trans _ _ _ (Debited-Follows sender receiver c.middle c.was)
          (Write-Follows db receiver (credited receiver) c.credit)
