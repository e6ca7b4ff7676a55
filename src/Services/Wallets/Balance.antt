-- ===== src/Services/Wallets/Balance.antt =====
-- The read path of payment-system/app/services/wallet_service.py: `get_wallet` and
-- `get_balance_fast`.
use payment_system.Base.{
  ℕ, ◌≡◌, refl, sym, subst, ◌⊎◌, inl, inr, Bool, true, false, Option, none, some, arith,
}
use payment_system.Core.Exceptions.{Exception, wallet_not_found}
use payment_system.Core.Outcome.{
  IsLibrary, Outcome, Returns, Outcome-bind, Returns-bind, Returns-weaken,
}
use payment_system.Models.Wallet.{Uuid, Wallet}
use payment_system.Models.Tables.{Tables}
use payment_system.Schemas.Wallet.{wallet_response}
use payment_system.Store.Database.{Database}
use payment_system.Store.Shown.{Shown, Absent, Queried}
use payment_system.Cache.Redis.{Texts, Redis}
use payment_system.Cache.Keys.{balance_key}
use payment_system.Cache.Manager.{get_balance, set_balance}
use payment_system.Cache.Manager.Safety.{cached_amount, Serves, get_balance_law, set_balance_law}
use payment_system.Services.World.{World, on_server-bind}
use payment_system.Services.Wallets.{
  find_wallet, cached_balance, lookup_balance, get_wallet, get_balance_fast,
}
use payment_system.Services.Wallets.Found.{Found, Missing, find_wallet_law}

module _ (db : Database) (texts : Texts) (redis : Redis) where
  open db use {Session, view, Others, others_refl}
  open redis use {Server, entry}

  -- The amount is the row object's or the one that the cache entry of the wallet stood for.
  abbrev pub Current : Wallet → Server → ℕ → Type 0
  Current o server amount =
      (amount ≡ o.balance)
      ⊎ (some amount ≡ cached_amount texts redis (entry server (balance_key o.id)))

  abbrev Told : Wallet → World Session Server → ℕ → World Session Server → Type 0
  Told o w amount w' = Current o w.server amount × (w'.session ≡ w.session)

  cached_balance_law :
      (o : Wallet) (w : World Session Server) (c : Server) (r : Option ℕ)
      → Serves texts redis (entry w.server (balance_key o.id)) r
      → Returns (Told o w) (cached_balance db texts redis o r (record w { server = c }))
  unfolding cached_balance
  cached_balance_law o w c none h =
      on_server-bind _ _ (Told o w) (λ _ _. ⊥) (set_balance texts redis o.id o.balance)
        (record w { server = c }) _ (set_balance_law texts redis o.id o.balance c)
        (λ _ c' _. (inl refl, refl)) (λ _ _ x. x)
  cached_balance_law o w c (some amount) (inl e) = absurd (ground arith)
  cached_balance_law o w c (some amount) (inr e) = (inr e, refl)

  lookup_balance_law :
      (client : Bool) (o : Wallet) (w : World Session Server)
      → Returns (Told o w) (lookup_balance db texts redis client o w)
  unfolding lookup_balance
  lookup_balance_law false o w = (inl refl, refl)
  lookup_balance_law true o w =
      on_server-bind _ _ (Told o w) (λ _ _. ⊥) (get_balance texts redis o.id) w _
        (get_balance_law texts redis o.id w.server) (λ r c h. cached_balance_law o w c r h.0)
        (λ _ _ x. x)

  -- The user's wallet, and an amount current for it; nothing of this session was written since `d`.
  pub record Answered (user_id : Uuid) (d : Tables) (server : Server) (wallet : Wallet) (amount : ℕ)
      (w' : World Session Server) : Type 0 where
    pub owner : wallet.user_id ≡ user_id
    pub queried : Queried db user_id d wallet
    pub shown : Shown db (view w'.session) wallet
    pub durable : Others d (view w'.session).durable
    pub current : Current wallet server amount

  abbrev pub NotFound : Uuid → Tables → Exception → World Session Server → Type 0
  NotFound user_id d e w' =
      (IsLibrary e ⊎ ((e ≡ wallet_not_found) × Absent db user_id d))
      × Others d (view w'.session).durable

  answered :
      (user_id : Uuid) (d : Tables) (server : Server) (o : Wallet) (amount : ℕ)
      (w₁ w₂ : World Session Server)
      → Found db texts redis d user_id server o w₁
      → Told o w₁ amount w₂
      → Answered user_id d server o amount w₂
  answered user_id d server o amount w₁ w₂ f t = record {
    owner = f.2;
    queried = f.4;
    shown = subst (λ s. Shown db (view s) o) (sym t.1) f.1;
    durable = subst (λ s. Others d (view s).durable) (sym t.1) f.0.durable;
    current = subst (λ c. Current o c amount) f.3 t.0;
  }

  -- `get_wallet` on a session with nothing pending returns the wallet of the user as the query for
  -- that user's row returned it, but for a balance that the cache entry of the wallet held, if it
  -- held one; or it raises a database exception, or WalletNotFoundException where the query found no
  -- wallet of the user. It writes no table, whatever Redis does.
  pub get_wallet_current :
      (client : Bool) (user_id : Uuid) (w : World Session Server)
      → (view w.session).seen ≡ (view w.session).durable
      → Outcome
          (λ r w'.
            (o : Wallet) × (amount : ℕ) × Answered user_id
              (view w.session).durable
              w.server
              o
              amount
              w'
            × (r ≡ wallet_response (record o { balance = amount })))
          (NotFound user_id (view w.session).durable)
          (get_wallet db texts redis client user_id w)
  unfolding get_wallet
  get_wallet_current client user_id w clean =
      let d = (view w.session).durable in
      Outcome-bind (Found db texts redis d user_id w.server) _
        (Missing db texts redis d user_id w.server) (NotFound user_id d)
        (find_wallet db texts redis user_id w) _
        (find_wallet_law db texts redis d user_id w
          (record { durable = others_refl d; clean = clean }))
        (λ o w₁ f.
          Returns-bind (Told o w₁)
            (λ r w'.
              (o : Wallet) × (amount : ℕ) × Answered user_id d w.server o amount w'
              × (r ≡ wallet_response (record o { balance = amount })))
            (NotFound user_id d) (lookup_balance db texts redis client o w₁) _
            (lookup_balance_law client o w₁)
            (λ amount w₂ t. (o, amount, answered user_id d w.server o amount w₁ w₂ f t, refl)))
        (λ e w₁ m. (m.0, m.1))

  -- `get_balance_fast` on a session with nothing pending returns the balance of the object that the
  -- query for that user's row returned, or the one that the cache entry of that wallet held; or it raises
  -- a database exception, or WalletNotFoundException where the query found no wallet of the user. It
  -- writes no table, whatever Redis does.
  pub get_balance_fast_current :
      (client : Bool) (user_id : Uuid) (w : World Session Server)
      → (view w.session).seen ≡ (view w.session).durable
      → Outcome
          (λ amount w'.
            (o : Wallet) × Answered user_id (view w.session).durable w.server o amount w')
          (NotFound user_id (view w.session).durable)
          (get_balance_fast db texts redis client user_id w)
  unfolding get_balance_fast
  get_balance_fast_current client user_id w clean =
      let d = (view w.session).durable in
      Outcome-bind (Found db texts redis d user_id w.server) _
        (Missing db texts redis d user_id w.server) (NotFound user_id d)
        (find_wallet db texts redis user_id w) _
        (find_wallet_law db texts redis d user_id w
          (record { durable = others_refl d; clean = clean }))
        (λ o w₁ f.
          Returns-weaken (Told o w₁)
            (λ amount w'. (o : Wallet) × Answered user_id d w.server o amount w')
            (NotFound user_id d) (lookup_balance db texts redis client o w₁)
            (lookup_balance_law client o w₁)
            (λ amount w₂ t. (o, answered user_id d w.server o amount w₁ w₂ f t)))
        (λ e w₁ m. (m.0, m.1))
