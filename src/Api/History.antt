-- ===== src/Api/History.antt =====
-- `get_transaction_history` of payment-system/app/api/v1/payments.py.
pub mod Pages
pub mod Paged
pub mod Reading
pub mod Client
use payment_system.Base.{ℕ, String, Bool, ◌&&◌, Option, none, some, [], map, leb}
use payment_system.Core.Exec.{Exec, pure, ◌>>=◌}
use payment_system.Models.Wallet.{Uuid, Wallet}
use payment_system.Schemas.Payment.{TransactionListResponse, transaction_response}
use payment_system.Store.Database.{Database}
use payment_system.Store.Paging.{Paging}
use payment_system.Store.Repositories.{get_by_user_id, get_by_wallet_id}

-- `Query(ge=1)` of the page, `Query(ge=1, le=100)` of its size.
abbrev pub accepts_page : ℕ → ℕ → Bool
accepts_page page page_size = leb 1 page && (leb 1 page_size && leb page_size 100)

module _ (db : Database) (paging : Paging db) where
  unfoldable pub history_of : ℕ → ℕ → Option Wallet → Exec db.Session TransactionListResponse
  history_of page page_size none =
      pure (record { transactions = []; total = 0; page = page; page_size = page_size })
  history_of page page_size (some wallet) = do
    (transactions, total) ← get_by_wallet_id db paging wallet.id page page_size
    pure (record {
      transactions = map transaction_response transactions;
      total = total;
      page = page;
      page_size = page_size;
    })

  -- The `status` that the route takes is not read.
  unfoldable pub get_transaction_history :
      Uuid → ℕ → ℕ → Option String → Exec db.Session TransactionListResponse
  unfolding history_of
  get_transaction_history user_id page page_size status = do
    wallet ← get_by_user_id db user_id
    history_of page page_size wallet
