-- ===== src/Store/Repositories.antt =====
-- The wallet and transaction repositories: payment-system/app/repositories/wallet_repo.py and
-- payment-system/app/repositories/transaction_repo.py. They only send statements, and the caller
-- decides where a transaction ends.
use payment_system.Base.{ℕ, ◌+◌, ◌-◌, ◌*◌, String, Bool, ◌&&◌, ◌||◌, Option, List, ltb, ◌==◌}
use payment_system.Core.Exec.{Exec, pure, ◌>>=◌}
use payment_system.Models.Wallet.{Uuid, Wallet}
use payment_system.Models.Transaction.{Transaction, Draft}
use payment_system.Models.Tables.{has_id, has_key}
use payment_system.Store.Database.{Database}
use payment_system.Store.Paging.{Paging}

module _ (db : Database) where
  open db use {
    Session, select_wallet, select_wallet_for_update, update_wallets, select_transaction,
    insert_transaction,
  }

  unfoldable pub get_by_user_id : Uuid → Exec Session (Option Wallet)
  get_by_user_id user_id = select_wallet (λ w. w.user_id == user_id)

  unfoldable pub get_by_id : Uuid → Exec Session (Option Wallet)
  get_by_id wallet_id = select_wallet (has_id wallet_id)

  unfoldable pub get_by_id_for_update : Uuid → Exec Session (Option Wallet)
  get_by_id_for_update wallet_id = select_wallet_for_update (has_id wallet_id)

  -- The row is written only where its version is the expected one; the answer is whether it was.
  unfoldable pub update_balance : Uuid → ℕ → ℕ → Exec Session Bool
  update_balance wallet_id new_balance expected_version = do
    rowcount ←
        update_wallets (λ w. has_id wallet_id w && (w.version == expected_version)) new_balance
          (expected_version + 1)
    pure (ltb 0 rowcount)

  unfoldable pub create : Draft → Exec Session Transaction
  create txn = insert_transaction txn

  unfoldable pub get_by_idempotency_key : String → Exec Session (Option Transaction)
  get_by_idempotency_key key = select_transaction (has_key key)

-- `or_(Transaction.sender_wallet_id == wallet_id, Transaction.receiver_wallet_id == wallet_id)`
abbrev pub is_party : Uuid → Transaction → Bool
is_party wallet_id x = (x.sender_wallet_id == wallet_id) || (x.receiver_wallet_id == wallet_id)

-- The offset of a page. The route admits pages from 1.
abbrev pub offset_of : ℕ → ℕ → ℕ
offset_of page page_size = (page - 1) * page_size

module _ (db : Database) (paging : Paging db) where
  open paging use {count_transactions, page_transactions}

  -- The count and the page are two queries.
  unfoldable pub get_by_wallet_id : Uuid → ℕ → ℕ → Exec db.Session (List Transaction × ℕ)
  get_by_wallet_id wallet_id page page_size = do
    total ← count_transactions (is_party wallet_id)
    transactions ← page_transactions (is_party wallet_id) (offset_of page page_size) page_size
    pure (transactions, total)
