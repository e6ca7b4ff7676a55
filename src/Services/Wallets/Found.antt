-- ===== src/Services/Wallets/Found.antt =====
-- The query for the user's wallet with its guard, with which the methods of
-- payment-system/app/services/wallet_service.py and the validation in
-- payment-system/app/services/payment_service.py begin.
use payment_system.Base.{◌≡◌, refl, sym, subst, ◌⊎◌, inl, inr, Option, none, some}
use payment_system.Core.Exceptions.{Exception, wallet_not_found}
use payment_system.Core.Exec.{or_raise}
use payment_system.Core.Outcome.{IsLibrary, Outcome}
use payment_system.Models.Wallet.{Uuid, Wallet}
use payment_system.Models.Tables.{Tables}
use payment_system.Store.Session.{View}
use payment_system.Store.Database.{Database}
use payment_system.Store.Repositories.{get_by_user_id}
use payment_system.Store.Shown.{Shown, Absent, Queried, Queried-since, Lookup, get_by_user_id_law}
use payment_system.Cache.Redis.{Texts, Redis}
use payment_system.Services.World.{World, on_session-bind}
use payment_system.Services.Wallets.{find_wallet}

module _ (db : Database) (texts : Texts) (redis : Redis) where
  open db use {Session, view, Others, others_trans}
  open redis use {Server}

  -- Nothing of this session is pending, and since `d` only other sessions committed.
  pub record Clean (d : Tables) (v : View) : Type 0 where
    pub durable : Others d v.durable
    pub clean : v.seen ≡ v.durable

  abbrev pub Found : Tables → Uuid → Server → Wallet → World Session Server → Type 0
  Found d user_id server o w' =
      Clean d (view w'.session)
      × Shown db (view w'.session) o
      × (o.user_id ≡ user_id)
      × (w'.server ≡ server)
      × Queried db user_id d o

  abbrev pub Missing : Tables → Uuid → Server → Exception → World Session Server → Type 0
  Missing d user_id server e w' =
      (IsLibrary e ⊎ ((e ≡ wallet_not_found) × Absent db user_id d))
      × Others d (view w'.session).durable
      × (w'.server ≡ server)

  -- The query by user with its guard.
  pub find_wallet_law :
      (d : Tables) (user_id : Uuid) (w : World Session Server)
      → Clean d (view w.session)
      → Outcome
          (Found d user_id w.server)
          (Missing d user_id w.server)
          (find_wallet db texts redis user_id w)
  unfolding find_wallet
  find_wallet_law d user_id w c =
      on_session-bind _ _ (Found d user_id w.server) (Missing d user_id w.server)
        (get_by_user_id db user_id) w _ (get_by_user_id_law db user_id w.session) found
        (λ e s h. (inl h.0, others_trans _ _ _ c.durable h.1, refl))
    where
      found :
          (r : Option Wallet) (s : Session)
          → Lookup db user_id (view w.session) r (view s)
          → Outcome
              (Found d user_id w.server)
              (Missing d user_id w.server)
              (or_raise wallet_not_found r (record w { session = s }))
      found none s l = (
        inr (
          refl,
          record {
            at = (view s).seen;
            reached =
                subst (Others d) (sym (l.clean c.clean))
                  (others_trans _ _ _ c.durable l.ran.others);
            none_found = l.owned;
          },
        ),
        others_trans _ _ _ c.durable l.ran.others,
        refl,
      )
      found (some o) s l = (
        record { durable = others_trans _ _ _ c.durable l.ran.others; clean = l.clean c.clean },
        l.owned.0,
        l.owned.1,
        refl,
        Queried-since db user_id d (view s).seen o
            (subst (Others d) (sym (l.clean c.clean)) (others_trans _ _ _ c.durable l.ran.others))
            l.owned.2,
      )
