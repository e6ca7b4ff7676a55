-- ===== src/Store/Accounts.antt =====
-- The part of the interface to SQLAlchemy that only payment-system/app/services/user_service.py
-- uses, through payment-system/app/repositories/user_repo.py and the `create` of
-- payment-system/app/repositories/wallet_repo.py.
use payment_system.Base.{
  ◌≡◌, refl, String, inl, inr, Bool, Option, none, ◌∷◌, find, ◌==◌, str_eq, arith, Bool-cases,
}
use payment_system.Core.Exec.{Exec}
use payment_system.Core.Outcome.{IsLibrary, IsUnexpected, Outcome}
use payment_system.Models.Wallet.{Uuid, Time, Wallet, default_wallet}
use payment_system.Models.User.{User, default_user}
use payment_system.Models.Tables.{Tables, wallet_by_id}
use payment_system.Store.Session.{View, Follows, Ran, Read}
use payment_system.Store.Database.{Database}

abbrev pub has_email : String → User → Bool
has_email email u = str_eq u.email email

module _ (db : Database) where
  open db use {Others, Shows}

  -- `db.add(User(...))` and `flush`: the email is unique.
  pub record UserAdded (email hash full_name : String) (v : View) (u : User) (v' : View)
      : Type 0 where
    pub before : Tables
    pub id : Uuid
    pub now : Time
    pub ran : Ran Others Shows v v' before
    pub row : u ≡ default_user id now email hash full_name
    pub unique : find (has_email email) before.users ≡ none
    pub written : v'.seen ≡ record before { users = u ∷ before.users }

  -- `db.add(Wallet(user_id=...))` and `flush`: the id and the user are unique.
  pub record WalletAdded (user_id : Uuid) (v : View) (w : Wallet) (v' : View) : Type 0 where
    pub before : Tables
    pub id : Uuid
    pub now : Time
    pub ran : Ran Others Shows v v' before
    pub row : w ≡ default_wallet id now user_id
    pub fresh : wallet_by_id w.id before.wallets ≡ none
    pub unique : find (λ x. x.user_id == user_id) before.wallets ≡ none
    pub written : v'.seen ≡ record before { wallets = w ∷ before.wallets }

pub record Accounts (db : Database) : Type 0 where
  pub select_user : (User → Bool) → Exec db.Session (Option User)
  pub insert_user : String → String → String → Exec db.Session User
  pub insert_wallet : Uuid → Exec db.Session Wallet
  pub refresh_user : User → Exec db.Session User
  pub select_user_law :
      (p : User → Bool) (s : db.Session)
      → Outcome
          (λ r s'. Read db.Others db.Shows (λ t. find p t.users) (db.view s) r (db.view s'))
          (λ e s'. IsLibrary e × db.Others (db.view s).durable (db.view s').durable)
          (select_user p s)
  pub insert_user_law :
      (email hash full_name : String) (s : db.Session)
      → Outcome
          (λ u s'. UserAdded db email hash full_name (db.view s) u (db.view s'))
          (λ e s'. IsLibrary e × db.Others (db.view s).durable (db.view s').durable)
          (insert_user email hash full_name s)
  pub insert_wallet_law :
      (user_id : Uuid) (s : db.Session)
      → Outcome
          (λ w s'. WalletAdded db user_id (db.view s) w (db.view s'))
          (λ e s'. IsLibrary e × db.Others (db.view s).durable (db.view s').durable)
          (insert_wallet user_id s)
  pub refresh_user_law :
      (u : User) (s : db.Session)
      → Outcome
          (λ r s'. (r ≡ u) × db.Others (db.view s).durable (db.view s').durable)
          (λ e s'. IsUnexpected e × db.Others (db.view s).durable (db.view s').durable)
          (refresh_user u s)

-- Neither insert touches a wallet or a ledger entry that is there.
pub Follows-users : (u : User) (t : Tables) → Follows t (record t { users = u ∷ t.users })
Follows-users u t = record {
  wallets = λ id w e. rw e (refl, refl, inl refl);
  ledger = λ key x e. e;
}

pub Follows-wallet :
    (w : Wallet) (t : Tables)
    → wallet_by_id w.id t.wallets ≡ none
    → Follows t (record t { wallets = w ∷ t.wallets })
Follows-wallet w t fresh = record {
  wallets = λ id x e. elim (Bool-cases (w.id == id)) [
    | inl same ↦ absurd (ground (arith, e, fresh))
    | inr other ↦ rw (other, e) (refl, refl, inl refl)
  ];
  ledger = λ key x e. e;
}
