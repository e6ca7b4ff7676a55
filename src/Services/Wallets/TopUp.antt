-- ===== src/Services/Wallets/TopUp.antt =====
-- The retry loop of `top_up` in payment-system/app/services/wallet_service.py.
use payment_system.Base.{ℕ, zero, suc, ◌+◌, ◌≡◌, refl, subst, inl, inr, Bool, true, false, some}
use payment_system.Core.Exceptions.{Exception}
use payment_system.Core.Exec.{Exec, pure, ◌>>=◌, ◌>>◌}
use payment_system.Core.Outcome.{
  Unexpected-IsLibrary, Outcome, Returns, Outcome-bind, Returns-bind, Outcome-weaken,
}
use payment_system.Models.Wallet.{Uuid, Wallet}
use payment_system.Models.Tables.{Tables, wallet_by_id}
use payment_system.Schemas.Wallet.{WalletResponse, wallet_response}
use payment_system.Store.Session.{View, Committed, RolledBack, Read}
use payment_system.Store.Database.{Database}
use payment_system.Store.Repositories.{update_balance}
use payment_system.Store.Versioned.{Answered, update_balance_law}
use payment_system.Store.Shown.{Shown}
use payment_system.Cache.Redis.{Texts, Redis, Fades}
use payment_system.Cache.Manager.{invalidate_balance, invalidate_wallet_info}
use payment_system.Cache.Manager.Safety.{invalidate_balance_law, invalidate_wallet_info_law}
use payment_system.Services.World.{
  World, on_session, on_session-bind, on_server, on_server-bind, on_server-Returns,
}
use payment_system.Services.Wallets.{
  find_wallet, invalidate, settle, top_up_attempts, top_up, max_top_up_retries,
}
use payment_system.Services.Wallets.Found.{Clean, Found, Missing, find_wallet_law}
use payment_system.Services.Wallets.Added.{ToppedUp, Declined, library-Declined}
use payment_system.Services.Wallets.Pending.{
  Pending, Pending-Placed, finished, reread_failed, commit_failed,
}

module _ (db : Database) (texts : Texts) (redis : Redis) where
  open db use {Session, view, Others, Shows, others_refl, others_trans, others_Follows}
  open redis use {Server}

  -- The cache is invalidated without an exception, and the session stays as it is.
  pub invalidate_law :
      (client : Bool) (id : Uuid) (w : World Session Server)
      → Returns (λ _ w'. w'.session ≡ w.session) (invalidate db texts redis client id w)
  unfolding invalidate
  invalidate_law false id w = refl
  invalidate_law true id w =
      on_server-bind _ _ (λ _ w'. w'.session ≡ w.session) (λ _ _. ⊥)
        (invalidate_balance texts redis id) w _ (invalidate_balance_law texts redis id w.server)
        (λ _ c _. session_only c) (λ e c h. h)
    where
      session_only :
          (c : Server)
          → Returns
              (λ _ w'. w'.session ≡ w.session)
              (on_server (invalidate_wallet_info texts redis id) (record w { server = c }))
      session_only c =
          Outcome-weaken _ _ (λ _ _. ⊥) (λ _ _. ⊥)
            (on_server (invalidate_wallet_info texts redis id) (record w { server = c }))
            (on_server-Returns (λ _ c'. Fades (redis.entry c) (redis.entry c'))
              (invalidate_wallet_info texts redis id) (record w { server = c })
              (invalidate_wallet_info_law texts redis id c))
            (λ _ w' h. h.1) (λ _ _ h. h)

  module _ (client : Bool) (user_id : Uuid) (amount : ℕ) (d : Tables) where
    abbrev Good : WalletResponse → World Session Server → Type 0
    Good r w' = ToppedUp db user_id amount d r (view w'.session).durable

    abbrev Bad : Exception → World Session Server → Type 0
    Bad e w' = Declined db d (view w'.session).durable e

    -- After the commit: the cache, and the row again.
    after_commit_law :
        (o : Wallet) (v : View) (w : World Session Server)
        → Pending db texts redis user_id amount d o v
        → Committed Others Shows v (view w.session)
        → Outcome Good Bad (
            (do
              invalidate db texts redis client o.id
              refreshed ← on_session (db.refresh_wallet o)
              pure (wallet_response refreshed))
              w)
    after_commit_law o v w p k =
        Returns-bind _ Good Bad (invalidate db texts redis client o.id w) _
          (invalidate_law client o.id w)
          (λ _ w₁ e.
            on_session-bind _ _ Good Bad (db.refresh_wallet o) w₁ _
              (db.refresh_wallet_law o w₁.session)
              (λ r s₂ q.
                finished db texts redis user_id amount d o r v (view w.session) (view s₂) p k (
                  subst
                    (λ s.
                      Read Others Shows (λ t. wallet_by_id o.id t.wallets) (view s) (some r)
                        (view s₂))
                    e q))
              (λ err s₂ h.
                library-Declined db d (view s₂).durable err (Unexpected-IsLibrary err h.0) (
                  inr (
                    h.0,
                    reread_failed db texts redis user_id amount d o v (view w.session)
                        (view s₂).durable p k
                        (subst (λ s. Others (view s).durable (view s₂).durable) e h.1),
                  ))))

    settle_law :
        (again : Exec (World Session Server) WalletResponse) (o : Wallet) (w : World Session Server)
        → Pending db texts redis user_id amount d o (view w.session)
        → Outcome Good Bad (settle db texts redis client again o true w)
    unfolding settle
    settle_law again o w p =
        on_session-bind (λ _ s₁. Committed Others Shows (view w.session) (view s₁)) _ Good Bad
          db.commit w _ (db.commit_law w.session)
          (λ _ s₁ k. after_commit_law o (view w.session) (record w { session = s₁ }) p k)
          (λ err s₁ h.
            library-Declined db d (view s₁).durable err h.0
              (commit_failed db texts redis user_id amount d o _ _ p h.1))

    -- Roll back, and go again.
    conflict_law :
        (again : Exec (World Session Server) WalletResponse) (o : Wallet) (w : World Session Server)
        → ((w' : World Session Server)
            → Clean db texts redis d (view w'.session)
            → Outcome Good Bad (again w'))
        → Others d (view w.session).durable
        → Outcome Good Bad (settle db texts redis client again o false w)
    unfolding settle
    conflict_law again o w h durable =
        on_session-bind (λ _ s₁. RolledBack Others Shows (view w.session) (view s₁)) _ Good Bad
          db.rollback w _ (db.rollback_law w.session)
          (λ _ s₁ b.
            h (record w { session = s₁ })
              (record { durable = others_trans _ _ _ durable b.others; clean = b.back }))
          (λ err s₁ u.
            library-Declined db d (view s₁).durable err (Unexpected-IsLibrary err u.0)
              (inl (others_trans _ _ _ durable u.1)))

    updated_law :
        (left : ℕ) (o : Wallet) (updated : Bool) (s : Session) (w : World Session Server)
        → ((w' : World Session Server)
            → Clean db texts redis d (view w'.session)
            → Outcome Good Bad (top_up_attempts db texts redis client user_id amount left w'))
        → Clean db texts redis d (view s)
        → Shown db (view s) o
        → o.user_id ≡ user_id
        → Answered db o.id o.version (o.balance + amount) (view s) updated (view w.session)
        → Outcome Good Bad (
            settle db texts redis client
              (top_up_attempts db texts redis client user_id amount left)
              o
              updated
              w)
    updated_law left o true s w again c k owner a =
        settle_law _ o w
          (Pending-Placed db texts redis user_id amount d o (view s) (view w.session) c k owner a)
    updated_law left o false s w again c k owner a =
        conflict_law _ o w again (others_trans _ _ _ c.durable a)

    top_up_attempts_law :
        (left : ℕ) (w : World Session Server)
        → Clean db texts redis d (view w.session)
        → Outcome Good Bad (top_up_attempts db texts redis client user_id amount left w)
    unfolding top_up_attempts
    top_up_attempts_law zero w c = c.durable
    top_up_attempts_law (suc left) w c =
        Outcome-bind (Found db texts redis d user_id w.server) Good
          (Missing db texts redis d user_id w.server) Bad (find_wallet db texts redis user_id w) _
          (find_wallet_law db texts redis d user_id w c)
          (λ o w₁ f.
            on_session-bind _ _ Good Bad (update_balance db o.id (o.balance + amount) o.version) w₁
              _ (update_balance_law db o.id (o.balance + amount) o.version w₁.session)
              (λ updated s₂ a.
                updated_law left o updated w₁.session (record w₁ { session = s₂ })
                  (top_up_attempts_law left) f.0 f.1 f.2 a)
              (λ e s₂ h.
                library-Declined db d (view s₂).durable e h.0
                  (inl (others_trans _ _ _ f.0.durable h.1))))
          (λ e w₁ h. elim h.0 [
            | inl library ↦ library-Declined db d (view w₁.session).durable e library (inl h.1)
            | inr missing ↦ rw missing.0 h.1
          ])

-- Whatever other sessions commit meanwhile and whatever Redis does, a top-up on a session with
-- nothing pending that returns has added the amount once, by one committed versioned write of the
-- user's wallet, and its response shows that wallet as it is durable at the end; one that raises has
-- changed no durable table, or its exception is an unexpected one.
pub top_up_adds_once :
    (db : Database) (texts : Texts) (redis : Redis) (client : Bool) (user_id : Uuid) (amount : ℕ)
    (w : World db.Session redis.Server)
    → (db.view w.session).seen ≡ (db.view w.session).durable
    → Outcome
        (λ r w'.
          ToppedUp db user_id amount (db.view w.session).durable r (db.view w'.session).durable)
        (λ e w'. Declined db (db.view w.session).durable (db.view w'.session).durable e)
        (top_up db texts redis client user_id amount w)
unfolding top_up
top_up_adds_once db texts redis client user_id amount w clean =
    top_up_attempts_law db texts redis client user_id amount _ max_top_up_retries w
      (record { durable = db.others_refl _; clean = clean })
