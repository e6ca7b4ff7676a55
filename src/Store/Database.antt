-- ===== src/Store/Database.antt =====
-- The interface to SQLAlchemy's AsyncSession over PostgreSQL, with what the program relies on. Each
-- operation is a statement that the repositories and services send; each law is one documented
-- effect of it, stated between the views of the session before and after.
use payment_system.Base.{ℕ, ◌≡◌, ◌⊎◌, Bool, Option, some, find}
use payment_system.Core.Exec.{Exec}
use payment_system.Core.Outcome.{IsLibrary, IsUnexpected, Outcome}
use payment_system.Models.Wallet.{Uuid, Wallet}
use payment_system.Models.Transaction.{Transaction, Draft}
use payment_system.Models.Tables.{Tables, wallet_by_id}
use payment_system.Store.Session.{
  View, Newer, Follows, Selected, Locked, Updated, Recorded, Read, Committed, RolledBack,
}

pub record Database : Type 1 where
  pub Session : Type 0
  pub view : Session → View
  pub Others : Tables → Tables → Type 0
  pub Shows : Wallet → Wallet → Type 0
  -- `(await db.execute(select(Wallet).where(...))).scalar_one_or_none()`
  pub select_wallet : (Wallet → Bool) → Exec Session (Option Wallet)
  -- the same with `.with_for_update()`
  pub select_wallet_for_update : (Wallet → Bool) → Exec Session (Option Wallet)
  -- `(await db.execute(update(Wallet).where(...).values(balance=..., version=...))).rowcount`
  pub update_wallets : (Wallet → Bool) → ℕ → ℕ → Exec Session ℕ
  pub select_transaction : (Transaction → Bool) → Exec Session (Option Transaction)
  -- `db.add(txn); await db.flush()`
  pub insert_transaction : Draft → Exec Session Transaction
  pub commit : Exec Session (Unit {0})
  pub rollback : Exec Session (Unit {0})
  -- `await db.refresh(x)`: the row is read again.
  pub refresh_wallet : Wallet → Exec Session Wallet
  pub refresh_transaction : Transaction → Exec Session Transaction
  -- Reading `wallet.id` where a rollback may have expired the object.
  pub read_id : Wallet → Exec Session Uuid
  pub others_refl : (t : Tables) → Others t t
  pub others_trans : (t u x : Tables) → Others t u → Others u x → Others t x
  pub others_Follows : (t u : Tables) → Others t u → Follows t u
  pub shows_Newer : (o w : Wallet) → Shows o w → Newer o w
  pub select_wallet_law :
      (p : Wallet → Bool) (s : Session)
      → Outcome
          (λ r s'. Selected Others Shows p (view s) r (view s'))
          (λ e s'. IsLibrary e × Others (view s).durable (view s').durable)
          (select_wallet p s)
  pub select_wallet_for_update_law :
      (p : Wallet → Bool) (s : Session)
      → Outcome
          (λ r s'. Locked Others Shows p (view s) r (view s'))
          (λ e s'. IsLibrary e × Others (view s).durable (view s').durable)
          (select_wallet_for_update p s)
  pub update_wallets_law :
      (p : Wallet → Bool) (balance version : ℕ) (s : Session)
      → Outcome
          (λ n s'. Updated Others Shows p balance version (view s) n (view s'))
          (λ e s'. IsLibrary e × Others (view s).durable (view s').durable)
          (update_wallets p balance version s)
  pub select_transaction_law :
      (p : Transaction → Bool) (s : Session)
      → Outcome
          (λ r s'. Read Others Shows (λ t. find p t.transactions) (view s) r (view s'))
          (λ e s'. IsLibrary e × Others (view s).durable (view s').durable)
          (select_transaction p s)
  pub insert_transaction_law :
      (d : Draft) (s : Session)
      → Outcome
          (λ x s'. Recorded Others Shows d (view s) x (view s'))
          (λ e s'. IsLibrary e × Others (view s).durable (view s').durable)
          (insert_transaction d s)
  -- A commit that raises may have reached the server or not: all of it is durable, or nothing. After
  -- an `IntegrityError` nothing is.
  pub commit_law :
      (s : Session)
      → Outcome
          (λ _ s'. Committed Others Shows (view s) (view s'))
          (λ e s'.
            IsLibrary e
            × (Others (view s).durable (view s').durable
                ⊎ (IsUnexpected e × Others (view s).seen (view s').durable)))
          (commit s)
  pub rollback_law :
      (s : Session)
      → Outcome
          (λ _ s'. RolledBack Others Shows (view s) (view s'))
          (λ e s'. IsUnexpected e × Others (view s).durable (view s').durable)
          (rollback s)
  pub refresh_wallet_law :
      (w : Wallet) (s : Session)
      → Outcome
          (λ r s'. Read Others Shows (λ t. wallet_by_id w.id t.wallets) (view s) (some r) (view s'))
          (λ e s'. IsUnexpected e × Others (view s).durable (view s').durable)
          (refresh_wallet w s)
  pub refresh_transaction_law :
      (x : Transaction) (s : Session)
      → Outcome
          (λ r s'. (r ≡ x) × Others (view s).durable (view s').durable)
          (λ e s'. IsUnexpected e × Others (view s).durable (view s').durable)
          (refresh_transaction x s)
  pub read_id_law :
      (w : Wallet) (s : Session)
      → Outcome
          (λ id s'. (id ≡ w.id) × (view s' ≡ view s))
          (λ e s'. IsUnexpected e × (view s' ≡ view s))
          (read_id w s)
