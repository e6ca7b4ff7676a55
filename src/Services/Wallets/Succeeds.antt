-- ===== src/Services/Wallets/Succeeds.antt =====
-- A top-up of payment-system/app/services/wallet_service.py that nothing disturbs goes through.
use payment_system.Base.{ℕ, ◌+◌, ◌≡◌, refl, sym, subst, ap, ◌∙◌, Bool, true, some, find, ◌==◌}
use payment_system.Core.Exec.{Exec, ◌>>=◌}
use payment_system.Core.Outcome.{Returns, Outcome-both, Returns-bind}
use payment_system.Models.Wallet.{Uuid, Wallet}
use payment_system.Models.Tables.{Tables, wallet_by_id, IsKeyed}
use payment_system.Models.Tables.Writes.{new_row, wallet_by_id-put_self, found_by_id}
use payment_system.Schemas.Wallet.{WalletResponse}
use payment_system.Store.Session.{Committed}
use payment_system.Store.Database.{Database}
use payment_system.Store.Calm.{IsCalm, calm_update}
use payment_system.Store.Repositories.{update_balance}
use payment_system.Cache.Redis.{Texts, Redis}
use payment_system.Services.World.{World, on_session, session_step}
use payment_system.Services.Wallets.{find_wallet, invalidate, settle, top_up_attempts, top_up}
use payment_system.Services.Wallets.Present.{found_step}
use payment_system.Services.Wallets.Added.{ToppedUp, Declined}
use payment_system.Services.Wallets.TopUp.{invalidate_law, top_up_adds_once}

module _ (db : Database) (texts : Texts) (redis : Redis) (calm : IsCalm db) (client : Bool)
    (user_id : Uuid) (amount : ℕ) where
  open db use {Session, view}
  open redis use {Server}

  abbrev Done : {A : Type 0} → Exec (World Session Server) A → World Session Server → Type 0
  Done m w = Returns (λ _ _. Unit {0}) (m w)

  settle_returns :
      (again : Exec (World Session Server) WalletResponse) (o row : Wallet)
      (w : World Session Server)
      → wallet_by_id o.id (view w.session).seen.wallets ≡ some row
      → Done (settle db texts redis client again o true) w
  unfolding settle
  settle_returns again o row w found =
      session_step (λ _ s₁. Committed db.Others db.Shows (view w.session) (view s₁))
        (λ _ _. Unit {0}) db.commit w _
        (Outcome-both _ _ _ (db.commit w.session) (db.commit_law w.session)
          (calm.commits w.session))
        (λ _ s₁ k.
          Returns-bind (λ _ w₂. w₂.session ≡ s₁) (λ _ _. Unit {0}) (λ _ _. ⊥)
            (invalidate db texts redis client o.id (record w { session = s₁ })) _
            (invalidate_law db texts redis client o.id (record w { session = s₁ }))
            (λ _ w₂ e.
              session_step (λ _ _. Unit {0}) (λ _ _. Unit {0}) (db.refresh_wallet o) w₂ _
                (calm.rereads o row w₂.session (
                  ap (λ s. wallet_by_id o.id (view s).seen.wallets) e
                  ∙ (ap (λ (t : Tables). wallet_by_id o.id t.wallets)
                        (sym (calm.alone _ _ k.arrived))
                      ∙ found)))
                (λ _ _ _. tt)))

  updated_returns :
      (left : ℕ) (o : Wallet) (w : World Session Server)
      → wallet_by_id o.id (view w.session).seen.wallets ≡ some o
      → Done
          (on_session (update_balance db o.id (o.balance + amount) o.version)
            >>= settle db texts redis client
                (top_up_attempts db texts redis client user_id amount left)
                o)
          w
  updated_returns left o w found =
      session_step _ (λ _ _. Unit {0}) (update_balance db o.id (o.balance + amount) o.version) w _
        (calm_update db calm o o.id (o.balance + amount) o.version w.session found refl)
        (λ updated s₁ u.
          subst
            (λ ok.
              Done
                (settle db texts redis client
                  (top_up_attempts db texts redis client user_id amount left) o ok)
                (record w { session = s₁ }))
            (sym u.0)
            (settle_returns _ o (new_row (o.balance + amount) o.version u.1.0 o)
              (record w { session = s₁ })
              (ap (λ (t : Tables). wallet_by_id o.id t.wallets) u.1.1
                ∙ wallet_by_id-put_self o.id o.version (o.balance + amount) u.1.0 o
                    (view w.session).seen.wallets found refl)))

  top_up_returns :
      (o : Wallet) (w : World Session Server)
      → IsKeyed (view w.session).seen.wallets
      → find (λ w. w.user_id == user_id) (view w.session).seen.wallets ≡ some o
      → Done (top_up db texts redis client user_id amount) w
  unfolding top_up top_up_attempts find_wallet
  top_up_returns o w keyed e = found_step db texts redis calm user_id o w _ e (λ s₁ same.
      updated_returns 2 o (record w { session = s₁ })
        (ap (λ (t : Tables). wallet_by_id o.id t.wallets) same
          ∙ found_by_id _ o (view w.session).seen.wallets keyed e))

-- On a calm database, where nothing fails and nobody else commits, and on a session with nothing
-- pending, a top-up for a user with a wallet returns, whatever Redis does, and has added the amount
-- once, by one committed write of the user's wallet.
pub top_up_succeeds :
    (db : Database) (texts : Texts) (redis : Redis) (calm : IsCalm db) (client : Bool)
    (user_id : Uuid) (amount : ℕ) (o : Wallet) (w : World db.Session redis.Server)
    → (db.view w.session).seen ≡ (db.view w.session).durable
    → IsKeyed (db.view w.session).seen.wallets
    → find (λ w. w.user_id == user_id) (db.view w.session).seen.wallets ≡ some o
    → Returns
        (λ r w'.
          ToppedUp db user_id amount (db.view w.session).durable r (db.view w'.session).durable)
        (top_up db texts redis client user_id amount w)
top_up_succeeds db texts redis calm client user_id amount o w clean keyed e =
    Outcome-both _ (λ e w'. Declined db (db.view w.session).durable (db.view w'.session).durable e)
      _ (top_up db texts redis client user_id amount w)
      (top_up_adds_once db texts redis client user_id amount w clean)
      (top_up_returns db texts redis calm client user_id amount o w keyed e)
