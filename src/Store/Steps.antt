-- ===== src/Store/Steps.antt =====
-- From one statement to the next: what a session knows of the rows that it has locked, and the write
-- that a granted `update_balance` of payment-system/app/repositories/wallet_repo.py makes.
use payment_system.Base.{ℕ, ◌≡◌, ◌≢◌, refl, sym, subst, ◌∙◌, true, some, arith}
use payment_system.Models.Wallet.{Uuid, Time, Wallet}
use payment_system.Models.Tables.{Tables, wallet_by_id, IsKeyed}
use payment_system.Models.Tables.Writes.{new_row, put, wallet_by_id-put_self, wallet_by_id-put_ne}
use payment_system.Store.Session.{View, Ran, Follows}
use payment_system.Store.Database.{Database}
use payment_system.Store.Follows.{Follows-trans, Follows-put}
use payment_system.Store.Versioned.{Placed, Known}

module _ (db : Database) where
  open db use {Others, Shows, others_Follows}

  module _ {id : Uuid} {version balance : ℕ} {v v' : View}
      (p : Placed db id version balance v v') where
    -- The row as the update leaves it.
    pub Placed-final : wallet_by_id id v'.seen.wallets ≡ some (new_row balance version p.now p.row)
    Placed-final =
        rw p.written
          (wallet_by_id-put_self id version balance p.now p.row p.before.wallets p.found p.current)

    -- Another known wallet stays known.
    pub Placed-Known : (o : Wallet) → o.id ≢ id → Known db v o → Known db v' o
    Placed-Known o other k = record {
      lock = p.ran.still o.id k.lock;
      row = k.row;
      found = rw p.written (
          wallet_by_id-put_ne id version balance p.now o.id p.before.wallets other
          ∙ (p.ran.kept o.id k.lock ∙ k.found));
      newer = k.newer;
    }

  -- An update that was computed from a known object, and found the object's version, wrote the very
  -- row that the object shows: no change of another session came between.
  pub Placed-row :
      {balance : ℕ} {v v' : View} (o : Wallet)
      → Known db v o
      → (p : Placed db o.id o.version balance v v') → p.row ≡ o
  Placed-row o k p = ground (arith, p.ran.kept o.id k.lock)

  -- A locked row whose columns are known.
  pub record Kept (v : View) (id : Uuid) (w : Wallet) : Type 0 where
    pub lock : v.held id ≡ true
    pub found : wallet_by_id id v.seen.wallets ≡ some w

  pub Ran-Kept :
      (v v' : View) (id : Uuid) (w : Wallet)
      → Ran Others Shows v v' v'.seen
      → Kept v id w
      → Kept v' id w
  Ran-Kept v v' id w ran h = record {
    lock = ran.still id h.lock;
    found = ran.kept id h.lock ∙ h.found;
  }

  -- Between `from` and `to` other sessions committed, and then this one wrote the balance of a row
  -- whose columns were those of `w`.
  pub record Write (from : Tables) (w : Wallet) (balance : ℕ) (to : Tables) : Type 0 where
    pub before : Tables
    pub now : Time
    pub arrived : Others from before
    pub keyed : IsKeyed before.wallets
    pub found : wallet_by_id w.id before.wallets ≡ some w
    pub done : to ≡ record before { wallets = put w.id w.version balance now before.wallets }

  module _ {balance : ℕ} {v v' : View} (o : Wallet)
      (p : Placed db o.id o.version balance v v') where
    -- The write, and the row as it leaves it.
    pub Placed-Write :
        p.row ≡ o
        → (w : Write v.seen o balance v'.seen) × Kept v' o.id (new_row balance o.version w.now o)
    Placed-Write same = (
      record {
        before = p.before;
        now = p.now;
        arrived = p.ran.arrived;
        keyed = p.ran.keyed;
        found = subst (λ w. wallet_by_id o.id p.before.wallets ≡ some w) same p.found;
        done = p.written;
      },
      record {
        lock = p.lock;
        found =
            subst
              (λ w. wallet_by_id o.id v'.seen.wallets ≡ some (new_row balance o.version p.now w))
              same (Placed-final p);
      },
    )

    pub Placed-Kept : (id : Uuid) (w : Wallet) → id ≢ o.id → Kept v id w → Kept v' id w
    Placed-Kept id w other h = record {
      lock = p.ran.still id h.lock;
      found = rw p.written (
          wallet_by_id-put_ne o.id o.version balance p.now id p.before.wallets other
          ∙ (p.ran.kept id h.lock ∙ h.found));
    }

  pub Write-Follows :
      {from to : Tables} (w : Wallet) (balance : ℕ) → Write from w balance to → Follows from to
  Write-Follows {from} w balance h = Follows-trans _ _ _ (others_Follows _ _ h.arrived) (
      subst (Follows h.before) (sym h.done)
        (Follows-put w.id w.version balance h.now w h.before h.found refl))
