-- ===== src/Api/Transactions.antt =====
-- `get_transaction` of payment-system/app/api/v1/payments.py.
pub mod Access
use payment_system.Base.{String, Bool, true, false, ◌&&◌, not, ◌==◌, if◌then◌else◌}
use payment_system.Core.Exceptions.{http}
use payment_system.Core.Exec.{Exec, pure, raise, or_raise, ◌>>=◌}
use payment_system.Models.Wallet.{Uuid, Wallet}
use payment_system.Models.Transaction.{Transaction}
use payment_system.Schemas.Payment.{TransactionResponse, transaction_response}
use payment_system.Store.Database.{Database}
use payment_system.Store.Repositories.{get_by_user_id}

-- `txn.sender_wallet_id != wallet.id and txn.receiver_wallet_id != wallet.id`
abbrev pub is_stranger : Wallet → Transaction → Bool
is_stranger wallet txn =
    not (txn.sender_wallet_id == wallet.id) && not (txn.receiver_wallet_id == wallet.id)

module _ (db : Database) where
  open db use {Session, select_transaction}

  -- The answer for a wallet and a transaction that were found.
  unfoldable pub show_to : Wallet → Transaction → Exec Session TransactionResponse
  show_to wallet txn =
      if is_stranger wallet txn
      then raise (http 403 "Not authorized to view this transaction")
      else pure (transaction_response txn)

  unfoldable pub get_transaction : Uuid → Uuid → Exec Session TransactionResponse
  unfolding show_to
  get_transaction transaction_id user_id = do
    wallet ← (do found ← get_by_user_id db user_id; or_raise (http 404 "Wallet not found") found)
    txn ← (do
      found ← select_transaction (λ x. x.id == transaction_id)
      or_raise (http 404 "Transaction not found") found)
    show_to wallet txn
