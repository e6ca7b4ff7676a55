-- ===== src/Store/Shown.antt =====
-- A wallet that a plain query returned: `get_by_user_id` of
-- payment-system/app/repositories/wallet_repo.py. Nothing is locked, so only the version in the
-- update that follows tells whether the row is still as the object shows it.
use payment_system.Base.{ℕ, ◌≡◌, refl, subst, ◌∙◌, Option, none, some, find, ◌==◌, arith}
use payment_system.Core.Outcome.{Outcome, Outcome-weaken}
use payment_system.Models.Wallet.{Uuid, Wallet}
use payment_system.Models.Tables.{Tables, wallet_by_id}
use payment_system.Models.Tables.Writes.{find_holds, found_by_id}
use payment_system.Store.Session.{View, Newer, NewerRow, Hit, Ran, Selected}
use payment_system.Store.Follows.{Newer-trans}
use payment_system.Store.Database.{Database}
use payment_system.Store.Repositories.{get_by_user_id}
use payment_system.Store.Versioned.{Untouched, Placed}

module _ (db : Database) where
  open db use {Session, view, Others, Shows, others_refl, others_trans}

  pub record Shown (v : View) (o : Wallet) : Type 0 where
    pub row : Wallet
    pub found : wallet_by_id o.id v.seen.wallets ≡ some row
    pub newer : Newer o row

  -- What the query by user returned, some time after the tables were `d`: an object for the row of
  -- that user in the tables as they then stood.
  pub record Queried (user_id : Uuid) (d : Tables) (o : Wallet) : Type 0 where
    pub at : Tables
    pub reached : Others d at
    pub row : Wallet
    pub found : find (λ w. w.user_id == user_id) at.wallets ≡ some row
    pub shown : Shows o row

  pub Queried-since :
      (user_id : Uuid) (d t : Tables) (o : Wallet)
      → Others d t
      → Queried user_id t o
      → Queried user_id d o
  Queried-since user_id d t o k q = record {
    at = q.at;
    reached = others_trans _ _ _ k q.reached;
    row = q.row;
    found = q.found;
    shown = q.shown;
  }

  -- Some time after the tables were `d`, the user had no wallet.
  pub record Absent (user_id : Uuid) (d : Tables) : Type 0 where
    pub at : Tables
    pub reached : Others d at
    pub none_found : find (λ w. w.user_id == user_id) at.wallets ≡ none

  abbrev pub Owned : Uuid → View → Option Wallet → Type 0
  Owned user_id v none = find (λ w. w.user_id == user_id) v.seen.wallets ≡ none
  Owned user_id v (some o) = Shown v o × (o.user_id ≡ user_id) × Queried user_id v.seen o

  -- What holds after the query by user.
  pub record Lookup (user_id : Uuid) (v : View) (r : Option Wallet) (v' : View) : Type 0 where
    pub ran : Ran Others Shows v v' v'.seen
    pub clean : v.seen ≡ v.durable → v'.seen ≡ v'.durable
    pub owned : Owned user_id v' r

  Owned-Selected :
      (user_id : Uuid) (v v' : View) (r row : Option Wallet)
      → find (λ w. w.user_id == user_id) v'.seen.wallets ≡ row
      → Selected Others Shows (λ w. w.user_id == user_id) v r v'
      → Owned user_id v' r
  Owned-Selected user_id v v' none none e l = e
  Owned-Selected user_id v v' none (some w) e l =
      absurd (subst (λ x. Hit Others Shows x none) e l.hit)
  Owned-Selected user_id v v' (some o) none e l =
      absurd (subst (λ x. Hit Others Shows x (some o)) e l.hit)
  Owned-Selected user_id v v' (some o) (some w) e l = (
    record {
      row = w;
      found = rw newer.0 (found_by_id _ w v'.seen.wallets l.ran.keyed e);
      newer = newer;
    },
    newer.1 ∙ owner,
    record {
      at = v'.seen;
      reached = others_refl v'.seen;
      row = w;
      found = e;
      shown = subst (λ x. Hit Others Shows x (some o)) e l.hit;
    },
  )
    where
      newer : Newer o w
      newer = db.shows_Newer o w (subst (λ x. Hit Others Shows x (some o)) e l.hit)

      owner : w.user_id ≡ user_id
      owner = ground (arith, find_holds (λ x. x.user_id == user_id) w v'.seen.wallets e)

  pub get_by_user_id_law :
      (user_id : Uuid) (s : Session)
      → Outcome
          (λ r s'. Lookup user_id (view s) r (view s'))
          (Untouched db (view s).durable)
          (get_by_user_id db user_id s)
  unfolding get_by_user_id
  get_by_user_id_law user_id s =
      Outcome-weaken _ _ _ _ (get_by_user_id db user_id s)
        (db.select_wallet_law (λ w. w.user_id == user_id) s)
        (λ r s' l. record {
          ran = l.ran;
          clean = l.clean;
          owned = Owned-Selected user_id (view s) (view s') r _ refl l;
        })
        (λ e s' h. h)

  -- An update that found the version of the object wrote the row that the object shows.
  pub Placed-Shown :
      {balance : ℕ} {v v' : View} (o : Wallet)
      → Shown v o
      → (p : Placed db o.id o.version balance v v') → p.row ≡ o
  Placed-Shown {v = v} o k p =
      let h = (db.others_Follows _ _ p.ran.arrived).wallets o.id k.row k.found in
      let n : Newer k.row p.row = subst (NewerRow k.row) p.found h in
      ground (arith, Newer-trans o k.row p.row k.newer n, p.current)
