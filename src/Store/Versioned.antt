-- ===== src/Store/Versioned.antt =====
-- What a repository call tells its caller: `update_balance` and `get_by_id_for_update` of
-- payment-system/app/repositories/wallet_repo.py, read off the laws of the database.
use payment_system.Base.{
  ℕ, ◌+◌, ◌≡◌, refl, subst, ◌∙◌, Bool, true, false, Option, none, some, inl, inr, arith, ltb,
  Bool-cases,
}
use payment_system.Core.Exceptions.{Exception}
use payment_system.Core.Outcome.{IsLibrary, Outcome, Outcome-bind, Outcome-weaken}
use payment_system.Models.Wallet.{Uuid, Time, Wallet}
use payment_system.Models.Tables.{Tables, has_id, wallet_by_id}
use payment_system.Models.Tables.Writes.{is_version, put, id_of_found, row_of_count}
use payment_system.Store.Session.{View, Newer, Hit, Ran, Locked, Updated}
use payment_system.Store.Database.{Database}
use payment_system.Store.Repositories.{get_by_id_for_update, update_balance}

module _ (db : Database) where
  open db use {Session, view, Others, Shows}

  -- The call raised before anything of this session could become durable.
  abbrev pub Untouched : Tables → Exception → Session → Type 0
  Untouched d e s' = IsLibrary e × Others d (view s').durable

  -- The UPDATE found the row at the expected version, and wrote it.
  pub record Placed (id : Uuid) (version balance : ℕ) (v v' : View) : Type 0 where
    pub before : Tables
    pub now : Time
    pub row : Wallet
    pub ran : Ran Others Shows v v' before
    pub found : wallet_by_id id before.wallets ≡ some row
    pub current : row.version ≡ version
    pub written : v'.seen ≡ record before { wallets = put id version balance now before.wallets }
    pub lock : v'.held id ≡ true

  abbrev pub Answered : Uuid → ℕ → ℕ → View → Bool → View → Type 0
  Answered id version balance v true v' = Placed id version balance v v'
  Answered id version balance v false v' = Others v.durable v'.durable

  -- The WHERE clause of the update holds of the row that was found.
  matches :
      (id : Uuid) (version : ℕ) (t : Tables) (row : Wallet)
      → wallet_by_id id t.wallets ≡ some row
      → row.version ≡ version
      → is_version id version row ≡ true
  matches id version t row found current = ground (arith, id_of_found id row t.wallets found)

  Answered-Updated :
      (id : Uuid) (version balance n : ℕ) (v v' : View)
      → Updated Others Shows (is_version id version) balance (version + 1) v n v'
      → Answered id version balance v (ltb 0 n) v'
  Answered-Updated id version balance n v v' u = elim (Bool-cases (ltb 0 n)) [
    | inl some_row ↦
        rw some_row
          (placed (row_of_count id version u.before.wallets u.ran.keyed (ground (arith, u.rows))))
    | inr no_row ↦ rw no_row u.ran.others
  ]
    where
      placed :
          (row : Wallet) × (wallet_by_id id u.before.wallets ≡ some row) × (row.version ≡ version)
          → Placed id version balance v v'
      placed (row, found, current) = record {
        before = u.before;
        now = u.now;
        row = row;
        ran = u.ran;
        found = found;
        current = current;
        written = u.written;
        lock = u.locks id row found (matches id version u.before row found current);
      }

  pub update_balance_law :
      (id : Uuid) (balance version : ℕ) (s : Session)
      → Outcome
          (λ updated s'. Answered id version balance (view s) updated (view s'))
          (Untouched (view s).durable)
          (update_balance db id balance version s)
  unfolding update_balance
  update_balance_law id balance version s =
      Outcome-bind _ _ _ _ (db.update_wallets _ _ _ s) _ (db.update_wallets_law _ _ _ s)
        (λ n s' u. Answered-Updated id version balance n (view s) (view s') u) (λ e s' h. h)

  -- A wallet object whose row the session has locked, with the columns of the row or older ones.
  pub record Known (v : View) (o : Wallet) : Type 0 where
    pub lock : v.held o.id ≡ true
    pub row : Wallet
    pub found : wallet_by_id o.id v.seen.wallets ≡ some row
    pub newer : Newer o row

  pub Ran-Known :
      (v v' : View) (o : Wallet) → Ran Others Shows v v' v'.seen → Known v o → Known v' o
  Ran-Known v v' o ran k = record {
    lock = ran.still o.id k.lock;
    row = k.row;
    found = ran.kept o.id k.lock ∙ k.found;
    newer = k.newer;
  }

  -- The lock query: a wallet with the id asked for, locked.
  abbrev pub Lock : Uuid → Option Wallet → View → Type 0
  Lock id none v' = Unit {0}
  Lock id (some o) v' = Known v' o × (o.id ≡ id)

  Lock-Locked :
      (id : Uuid) (v v' : View) (r row : Option Wallet)
      → wallet_by_id id v'.seen.wallets ≡ row
      → Locked Others Shows (has_id id) v r v'
      → Lock id r v'
  Lock-Locked id v v' none row e l = tt
  Lock-Locked id v v' (some o) none e l = absurd (subst (λ x. Hit Others Shows x (some o)) e l.hit)
  Lock-Locked id v v' (some o) (some w) e l = (
    record {
      lock = rw newer.0 (l.locks w e);
      row = w;
      found = rw (newer.0 ∙ same) e;
      newer = newer;
    },
    newer.0 ∙ same,
  )
    where
      newer : Newer o w
      newer = db.shows_Newer o w (subst (λ x. Hit Others Shows x (some o)) e l.hit)

      same : w.id ≡ id
      same = id_of_found id w v'.seen.wallets e

  -- What holds after the lock query: the tables moved on by commits of others only, the wallets
  -- known before stay known, and the one found is known.
  pub record AfterLock (id : Uuid) (v : View) (r : Option Wallet) (v' : View) : Type 0 where
    pub ran : Ran Others Shows v v' v'.seen
    pub lock : Lock id r v'

  pub get_by_id_for_update_law :
      (id : Uuid) (s : Session)
      → Outcome
          (λ r s'. AfterLock id (view s) r (view s'))
          (Untouched (view s).durable)
          (get_by_id_for_update db id s)
  unfolding get_by_id_for_update
  get_by_id_for_update_law id s =
      Outcome-weaken _ _ _ _ (get_by_id_for_update db id s)
        (db.select_wallet_for_update_law (has_id id) s)
        (λ r s' l. record { ran = l.ran; lock = Lock-Locked id (view s) (view s') r _ refl l })
        (λ e s' h. h)
