-- ===== src/Services/Transfer.antt =====
-- `_execute_transfer` of payment-system/app/services/payment_service.py: debit, credit and ledger
-- entry in one database transaction.
pub mod Trace
pub mod Money
pub mod LockOrder
pub mod Succeeds
use payment_system.Base.{
  ℕ, ◌+◌, ◌-◌, String, Bool, true, false, Option, none, some, ltb, leb, ◌==◌, if◌then◌else◌,
}
use payment_system.Core.Exceptions.{wallet_not_found, insufficient_balance, optimistic_lock}
use payment_system.Core.Exec.{Exec, pure, raise, ◌>>=◌, ◌>>◌}
use payment_system.Models.Wallet.{Uuid, Wallet}
use payment_system.Models.Transaction.{Draft, completed}
use payment_system.Schemas.Payment.{TransactionResponse, transaction_response}
use payment_system.Store.Database.{Database}
use payment_system.Store.Repositories.{get_by_id_for_update, update_balance, create}

-- The arguments of one transfer.
pub record Order : Type 0 where
  pub sender_wallet_id : Uuid
  pub receiver_wallet_id : Uuid
  pub amount : ℕ
  pub currency : String
  pub idempotency_key : String
  pub description : Option String

-- `sorted([sender_wallet_id, receiver_wallet_id])`
unfoldable pub lock_order : Uuid → Uuid → Uuid × Uuid
lock_order a b = if leb a b then (a, b) else (b, a)

-- `Transaction(...)` with the two locked wallets.
abbrev pub draft_of : Order → Wallet → Wallet → Draft
draft_of o sender receiver = record {
  sender_wallet_id = sender.id;
  receiver_wallet_id = receiver.id;
  amount = o.amount;
  currency = o.currency;
  status = completed;
  idempotency_key = o.idempotency_key;
  description = o.description;
}

-- Which of the two locked wallets is the sender's.
abbrev pub roles : Uuid → Wallet → Wallet → Wallet × Wallet
roles sender_wallet_id first second =
    if first.id == sender_wallet_id then (first, second) else (second, first)

module _ (db : Database) where
  open db use {Session, commit, refresh_transaction}

  -- `if not ok: raise OptimisticLockException()`
  abbrev pub require_update : Bool → Exec Session (Unit {0})
  require_update true = pure tt
  require_update false = raise optimistic_lock

  -- The ledger entry and the commit.
  unfoldable pub record_transfer : Order → Wallet → Wallet → Exec Session TransactionResponse
  record_transfer o sender receiver = do
    transaction ← create db (draft_of o sender receiver)
    commit
    transaction' ← refresh_transaction transaction
    pure (transaction_response transaction')

  -- The credit, and what follows it.
  unfoldable pub credit_receiver : Order → Wallet → Wallet → Exec Session TransactionResponse
  unfolding record_transfer
  credit_receiver o sender receiver = do
    receiver_ok ← update_balance db receiver.id (receiver.balance + o.amount) receiver.version
    require_update receiver_ok
    record_transfer o sender receiver

  -- The debit, and what follows it.
  unfoldable pub move_money : Order → Wallet → Wallet → Exec Session TransactionResponse
  unfolding credit_receiver
  move_money o sender receiver = do
    sender_ok ← update_balance db sender.id (sender.balance - o.amount) sender.version
    require_update sender_ok
    credit_receiver o sender receiver

  unfoldable pub check_balance : Order → Wallet × Wallet → Exec Session TransactionResponse
  unfolding move_money
  check_balance o (sender, receiver) =
      if ltb sender.balance o.amount
      then raise (insufficient_balance sender.balance o.amount)
      else move_money o sender receiver

  unfoldable pub with_locked :
      Order → Option Wallet → Option Wallet → Exec Session TransactionResponse
  unfolding check_balance
  with_locked o none second = raise wallet_not_found
  with_locked o (some first) none = raise wallet_not_found
  with_locked o (some first) (some second) = check_balance o (roles o.sender_wallet_id first second)

  unfoldable pub execute_transfer : Order → Exec Session TransactionResponse
  unfolding with_locked lock_order
  execute_transfer o = do
    let wallet_ids = lock_order o.sender_wallet_id o.receiver_wallet_id
    locked_first ← get_by_id_for_update db wallet_ids.0
    locked_second ← get_by_id_for_update db wallet_ids.1
    with_locked o locked_first locked_second
