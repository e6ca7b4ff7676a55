-- ===== src/Services/Wallets/Present.antt =====
-- The query for the user's wallet, with which the services of payment-system/app/services begin, where
-- the wallet is there and nothing fails.
use payment_system.Base.{◌≡◌, refl, sym, subst, ◌∙◌, some, find, ◌==◌}
use payment_system.Core.Exceptions.{wallet_not_found}
use payment_system.Core.Exec.{Exec, or_raise, ◌>>=◌}
use payment_system.Core.Outcome.{Returns, Returns-bind}
use payment_system.Models.Wallet.{Uuid, Wallet}
use payment_system.Store.Database.{Database}
use payment_system.Store.Calm.{IsCalm, calm_select}
use payment_system.Store.Repositories.{get_by_user_id}
use payment_system.Cache.Redis.{Texts, Redis}
use payment_system.Services.World.{World, on_session, on_session-bind}

module _ (db : Database) (texts : Texts) (redis : Redis) (calm : IsCalm db) where
  open db use {Session, view}
  open redis use {Server}

  abbrev pub Done : {A : Type 0} → Exec (World Session Server) A → World Session Server → Type 0
  Done m w = Returns (λ _ _. Unit {0}) (m w)

  -- The query by user finds the row, and the guard lets it pass.
  pub found_step :
      {A : Type 0} (id : Uuid) (o : Wallet) (w : World Session Server)
      (f : Wallet → Exec (World Session Server) A)
      → find (λ w. w.user_id == id) (view w.session).seen.wallets ≡ some o
      → ((s : Session)
          → (view s).seen ≡ (view w.session).seen
          → Done (f o) (record w { session = s }))
      → Done ((on_session (get_by_user_id db id) >>= or_raise wallet_not_found) >>= f) w
  unfolding get_by_user_id
  found_step id o w f e rest =
      Returns-bind Seen (λ _ _. Unit {0}) (λ _ _. ⊥) _ f inner
        (λ x w₁ h.
          subst (λ y. Done (f y) w₁) (sym h.0)
            (subst (λ w'. Done (f o) w') (sym h.1.1) (rest h.1.0 h.1.2)))
    where
      Seen : Wallet → World Session Server → Type 0
      Seen x w₁ =
          (x ≡ o)
          × ((s : Session) × (w₁ ≡ record w { session = s })
              × ((view s).seen ≡ (view w.session).seen))

      inner : Returns Seen ((on_session (get_by_user_id db id) >>= or_raise wallet_not_found) w)
      inner =
          on_session-bind _ (λ _ _. ⊥) Seen (λ _ _. ⊥) (get_by_user_id db id) w _
            (calm_select db calm (λ w. w.user_id == id) w.session)
            (λ r s h.
              subst (λ c. Returns Seen (or_raise wallet_not_found c (record w { session = s })))
                (sym (h.0 ∙ e)) (refl, (s, refl, h.1)))
            (λ _ _ x. x)
