-- ===== src/Store/Paging.antt =====
-- The part of the interface to SQLAlchemy that only `get_by_wallet_id` of
-- payment-system/app/repositories/transaction_repo.py uses: a count, and an ordered and cut query.
pub mod Newest
use mathlib.Core.List.{Perm, Pairwise}
use payment_system.Base.{ℕ, ◌≤◌, ◌≡◌, Bool, List, count_where}
use payment_system.Base.Lists.{filter, take, drop}
use payment_system.Core.Exec.{Exec}
use payment_system.Core.Outcome.{IsLibrary, Outcome, Returns}
use payment_system.Models.Transaction.{Transaction}
use payment_system.Store.Session.{View, Ran, Read}
use payment_system.Store.Database.{Database}

-- `created_at` does not rise along the list.
abbrev pub NewestFirst : List Transaction → Type 0
NewestFirst = Pairwise (λ x y. y.created_at ≤ x.created_at)

-- The cut that `OFFSET` and `LIMIT` make.
abbrev pub cut : ℕ → ℕ → List Transaction → List Transaction
cut offset limit l = take limit (drop offset l)

module _ (db : Database) where
  open db use {Others, Shows}

  -- `ORDER BY created_at DESC` says nothing of entries with one `created_at`: they come in any order,
  -- and each time the query runs they may come in another.
  pub record Paged (p : Transaction → Bool) (offset limit : ℕ) (v : View) (r : List Transaction)
      (v' : View) : Type 0 where
    pub ran : Ran Others Shows v v' v'.seen
    pub clean : v.seen ≡ v.durable → v'.seen ≡ v'.durable
    pub ordered : List Transaction
    pub arranged : Perm ordered (filter p v'.seen.transactions)
    pub newest : NewestFirst ordered
    pub rows : r ≡ cut offset limit ordered

pub record Paging (db : Database) : Type 0 where
  -- `(await db.execute(select(func.count()).select_from(query.subquery()))).scalar_one()`
  pub count_transactions : (Transaction → Bool) → Exec db.Session ℕ
  -- `query.order_by(Transaction.created_at.desc()).offset(offset).limit(limit)`
  pub page_transactions : (Transaction → Bool) → ℕ → ℕ → Exec db.Session (List Transaction)
  pub count_transactions_law :
      (p : Transaction → Bool) (s : db.Session)
      → Outcome
          (λ r s'.
            Read db.Others db.Shows (λ t. count_where p t.transactions) (db.view s) r (db.view s'))
          (λ e s'. IsLibrary e × db.Others (db.view s).durable (db.view s').durable)
          (count_transactions p s)
  pub page_transactions_law :
      (p : Transaction → Bool) (offset limit : ℕ) (s : db.Session)
      → Outcome
          (λ r s'. Paged db p offset limit (db.view s) r (db.view s'))
          (λ e s'. IsLibrary e × db.Others (db.view s).durable (db.view s').durable)
          (page_transactions p offset limit s)

-- No query raises.
pub record IsCalmPaging (db : Database) (paging : Paging db) : Type 0 where
  pub counts :
      (p : Transaction → Bool) (s : db.Session)
      → Returns (λ _ _. Unit {0}) (paging.count_transactions p s)
  pub pages :
      (p : Transaction → Bool) (offset limit : ℕ) (s : db.Session)
      → Returns (λ _ _. Unit {0}) (paging.page_transactions p offset limit s)
