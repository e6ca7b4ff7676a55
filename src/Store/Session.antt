-- ===== src/Store/Session.antt =====
-- What one statement of a SQLAlchemy session may do, between two views of the session. PostgreSQL
-- runs at READ COMMITTED: other sessions' commits show between two statements, but never in a row
-- that this session has locked. Row objects may carry columns that were loaded earlier.
use payment_system.Base.{
  ℕ, ◌<◌, ◌≡◌, String, ◌⊎◌, Bool, true, Option, none, some, ◌∷◌, find, count_where, update_where,
}
use payment_system.Models.Wallet.{Uuid, Time, Wallet, touch}
use payment_system.Models.Transaction.{Transaction, Draft, fill, passes_checks}
use payment_system.Models.Tables.{Tables, wallet_by_id, by_key, IsKeyed}

-- `seen` is what the next statement would read if nothing else happened, `durable` what a rollback
-- would leave, and `held` tells the wallets whose row lock the session has.
pub record View : Type 0 where
  pub seen : Tables
  pub durable : Tables
  pub held : Uuid → Bool

-- The columns `o` are those of the row `w`, or of an earlier version of it. The key and the user of a
-- wallet never change.
abbrev pub Newer : Wallet → Wallet → Type 0
Newer o w = (o.id ≡ w.id) × (o.user_id ≡ w.user_id) × ((o ≡ w) ⊎ (o.version < w.version))

abbrev pub NewerRow : Wallet → Option Wallet → Type 0
NewerRow o none = ⊥
NewerRow o (some w) = Newer o w

-- How tables may change under the program: a wallet whose columns change gets a higher version, and
-- a ledger entry stays for good.
pub record Follows (t t' : Tables) : Type 0 where
  pub wallets :
      (id : Uuid) (w : Wallet)
      → wallet_by_id id t.wallets ≡ some w
      → NewerRow w (wallet_by_id id t'.wallets)
  pub ledger :
      (key : String) (x : Transaction)
      → by_key key t.transactions ≡ some x
      → by_key key t'.transactions ≡ some x

-- `Others` is what commits of other sessions do, and `Shows o w` that a query which finds the row
-- `w` may return an object with the columns `o`.
module _ (Others : Tables → Tables → Type 0) (Shows : Wallet → Wallet → Type 0) where
  -- A statement that ran on the tables `t`.
  pub record Ran (v v' : View) (t : Tables) : Type 0 where
    pub arrived : Others v.seen t
    pub kept :
        (id : Uuid) → v.held id ≡ true → wallet_by_id id t.wallets ≡ wallet_by_id id v.seen.wallets
    pub keyed : IsKeyed t.wallets
    pub others : Others v.durable v'.durable
    pub still : (id : Uuid) → v.held id ≡ true → v'.held id ≡ true

  abbrev pub Hit : Option Wallet → Option Wallet → Type 0
  Hit none none = Unit {0}
  Hit none (some o) = ⊥
  Hit (some w) none = ⊥
  Hit (some w) (some o) = Shows o w

  -- A query writes nothing: where the session has no write pending, it reads what is durable.
  pub record Selected (p : Wallet → Bool) (v : View) (r : Option Wallet) (v' : View) : Type 0 where
    pub ran : Ran v v' v'.seen
    pub clean : v.seen ≡ v.durable → v'.seen ≡ v'.durable
    pub hit : Hit (find p v'.seen.wallets) r

  -- `SELECT ... FOR UPDATE`.
  pub record Locked (p : Wallet → Bool) (v : View) (r : Option Wallet) (v' : View) : Type 0 where
    pub ran : Ran v v' v'.seen
    pub clean : v.seen ≡ v.durable → v'.seen ≡ v'.durable
    pub hit : Hit (find p v'.seen.wallets) r
    pub locks : (w : Wallet) → find p v'.seen.wallets ≡ some w → v'.held w.id ≡ true

  pub record Updated (p : Wallet → Bool) (balance version : ℕ) (v : View) (n : ℕ) (v' : View)
      : Type 0 where
    pub before : Tables
    pub now : Time
    pub ran : Ran v v' before
    pub rows : n ≡ count_where p before.wallets
    pub written : v'.seen ≡ record before {
      wallets =
          update_where p
            (λ w. touch now (record w { balance = balance; version = version }))
            before.wallets;
    }
    pub locks :
        (id : Uuid) (w : Wallet)
        → wallet_by_id id before.wallets ≡ some w
        → p w ≡ true
        → v'.held id ≡ true

  -- `add` and `flush` of a ledger entry: the constraints hold, and the row is there.
  pub record Recorded (d : Draft) (v : View) (x : Transaction) (v' : View) : Type 0 where
    pub before : Tables
    pub id : Uuid
    pub now : Time
    pub ran : Ran v v' before
    pub row : x ≡ fill id now d
    pub unique : by_key d.idempotency_key before.transactions ≡ none
    pub checked : passes_checks d ≡ true
    pub written : v'.seen ≡ record before { transactions = x ∷ before.transactions }

  -- A query that reads the ledger.
  pub record Read {ℓ} {A : Type ℓ} (query : Tables → A) (v : View) (r : A) (v' : View)
      : Type ℓ where
    pub ran : Ran v v' v'.seen
    pub clean : v.seen ≡ v.durable → v'.seen ≡ v'.durable
    pub result : r ≡ query v'.seen

  pub record Committed (v v' : View) : Type 0 where
    pub arrived : Others v.seen v'.seen
    pub kept :
        (id : Uuid)
        → v.held id ≡ true
        → wallet_by_id id v'.seen.wallets ≡ wallet_by_id id v.seen.wallets
    pub durable : v'.durable ≡ v'.seen

  pub record RolledBack (v v' : View) : Type 0 where
    pub others : Others v.durable v'.durable
    pub back : v'.seen ≡ v'.durable
