-- ===== src/Services/Wallets/Pending.antt =====
-- The balance update of the top-up of payment-system/app/services/wallet_service.py before and after
-- its commit.
use payment_system.Base.{ℕ, ◌+◌, ◌≡◌, refl, sym, subst, ◌∙◌, ◌⊎◌, inl, inr, some}
use payment_system.Models.Wallet.{Uuid, Wallet}
use payment_system.Models.Tables.{Tables, wallet_by_id}
use payment_system.Models.Tables.Writes.{new_row}
use payment_system.Schemas.Wallet.{wallet_response}
use payment_system.Store.Session.{View, NewerRow, Follows, Committed, Read}
use payment_system.Store.Database.{Database}
use payment_system.Store.Follows.{Follows-trans}
use payment_system.Store.Versioned.{Placed}
use payment_system.Store.Steps.{Kept, Write, Placed-Write, Write-Follows}
use payment_system.Store.Shown.{Shown, Placed-Shown}
use payment_system.Cache.Redis.{Texts, Redis}
use payment_system.Services.Wallets.Found.{Clean}
use payment_system.Services.Wallets.Added.{ToppedUp}

module _ (db : Database) (texts : Texts) (redis : Redis) where
  open db use {view, Others, Shows, others_trans, others_Follows}

  module _ (user_id : Uuid) (amount : ℕ) (d : Tables) where
    -- The update has been made, and is still to be committed.
    pub record Pending (o : Wallet) (v : View) : Type 0 where
      pub start : Tables
      pub begun : Others d start
      pub owner : o.user_id ≡ user_id
      pub durable : Others d v.durable
      pub write : Write db start o (o.balance + amount) v.seen
      pub kept : Kept db v o.id (new_row (o.balance + amount) o.version write.now o)

    pub Pending-Placed :
        (o : Wallet) (v v' : View)
        → Clean db texts redis d v
        → Shown db v o
        → o.user_id ≡ user_id
        → Placed db o.id o.version (o.balance + amount) v v'
        → Pending o v'
    Pending-Placed o v v' c k owner p =
        let placed = Placed-Write db o p (Placed-Shown db o k p) in
        record {
          start = v.seen;
          begun = subst (Others d) (sym c.clean) c.durable;
          owner = owner;
          durable = others_trans _ _ _ c.durable p.ran.others;
          write = placed.0;
          kept = placed.1;
        }

    pub Pending-Follows : (o : Wallet) (v : View) → Pending o v → Follows d v.seen
    Pending-Follows o v p =
        Follows-trans _ _ _ (others_Follows _ _ p.begun)
          (Write-Follows db o (o.balance + amount) p.write)

    -- The row is read again after the commit.
    pub finished :
        (o r : Wallet) (v v₁ v₂ : View)
        → Pending o v
        → Committed Others Shows v v₁
        → Read Others Shows (λ t. wallet_by_id o.id t.wallets) v₁ (some r) v₂
        → ToppedUp db user_id amount d (wallet_response r) v₂.durable
    finished o r v v₁ v₂ p k q = record {
      wallet = o;
      owner = p.owner;
      start = p.start;
      begun = p.begun;
      after = v.seen;
      write = p.write;
      committed = v₁.seen;
      published = k.arrived;
      row = row;
      later = subst (λ t. Others t v₂.durable) k.durable q.ran.others;
      reread = r;
      reread_row =
          subst (λ (t : Tables). wallet_by_id o.id t.wallets ≡ some r) (q.clean (sym k.durable))
            (sym q.result);
      newer =
          subst (NewerRow (new_row (o.balance + amount) o.version p.write.now o)) (sym q.result)
            ((others_Follows _ _ q.ran.arrived).wallets o.id _ row);
      response = refl;
    }
      where
        row :
            wallet_by_id o.id v₁.seen.wallets
            ≡ some (new_row (o.balance + amount) o.version p.write.now o)
        row = k.kept o.id p.kept.lock ∙ p.kept.found

    pub reread_failed :
        (o : Wallet) (v v₁ : View) (to : Tables)
        → Pending o v
        → Committed Others Shows v v₁
        → Others v₁.durable to
        → Follows d to
    reread_failed o v v₁ to p k later = Follows-trans _ _ _ (Pending-Follows o v p) (
        others_Follows _ _
          (others_trans _ _ _ k.arrived (subst (λ t. Others t to) k.durable later)))

    pub commit_failed :
        {U : Type 0} (o : Wallet) (v : View) (to : Tables)
        → Pending o v
        → Others v.durable to ⊎ (U × Others v.seen to)
        → Others d to ⊎ (U × Follows d to)
    commit_failed o v to p (inl same) = inl (others_trans _ _ _ p.durable same)
    commit_failed o v to p (inr (u, reached)) =
        inr (u, Follows-trans _ _ _ (Pending-Follows o v p) (others_Follows _ _ reached))
