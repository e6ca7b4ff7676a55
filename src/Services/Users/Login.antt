-- ===== src/Services/Users/Login.antt =====
-- Who gets a token from `login` of payment-system/app/services/user_service.py.
use payment_system.Base.{
  ◌≡◌, refl, sym, String, ◌⊎◌, inl, inr, Bool, true, false, Option, none, some, find, Bool-cases,
}
use payment_system.Core.Exceptions.{Exception, user_not_found}
use payment_system.Core.Outcome.{IsLibrary, Outcome, Outcome-bind}
use payment_system.Models.Wallet.{Uuid}
use payment_system.Models.User.{User}
use payment_system.Models.Tables.{Tables}
use payment_system.Schemas.User.{UserLogin, TokenResponse, token_response}
use payment_system.Store.Session.{Read}
use payment_system.Store.Database.{Database}
use payment_system.Store.Accounts.{has_email, Accounts}
use payment_system.Services.Users.{check_password, login, get_by_email}

module _ (db : Database) (accounts : Accounts db) (verify_password : String → String → Bool)
    (create_access_token : Uuid → String) (data' : UserLogin) where
  open db use {Session, view, Others}

  abbrev Of : Option User → Session → Type 0
  Of r s' = find (has_email data'.email) (view s').seen.users ≡ r

  abbrev pub Admitted : Tables → TokenResponse → Session → Type 0
  Admitted d r s' =
      (u : User) × Of (some u) s'
      × (verify_password data'.password u.password_hash ≡ true)
      × (r ≡ token_response (create_access_token u.id))
      × Others d (view s').durable

  abbrev pub Refused : Tables → Exception → Session → Type 0
  Refused d e s' =
      (IsLibrary e
        ⊎ ((e ≡ user_not_found "")
            × (Of none s'
                ⊎ ((u : User) × Of (some u) s'
                    × (verify_password data'.password u.password_hash ≡ false)))))
      × Others d (view s').durable

  -- A token is given for the user with the email, and only if the password verifies against the user's
  -- hash. An unknown email and a wrong password get the same exception, and a library's exception is
  -- the only other one. The request writes nothing.
  pub login_admits :
      (s : Session)
      → Outcome
          (Admitted (view s).durable)
          (Refused (view s).durable)
          (login db accounts verify_password create_access_token data' s)
  unfolding login get_by_email
  login_admits s =
      Outcome-bind
        (λ r s₁.
          Read Others db.Shows (λ t. find (has_email data'.email) t.users) (view s) r (view s₁))
        (Admitted (view s).durable) _ (Refused (view s).durable)
        (accounts.select_user (has_email data'.email) s) _
        (accounts.select_user_law (has_email data'.email) s)
        (λ r s₁ l. checked r s₁ (sym l.result) l.ran.others) (λ e s₁ h. (inl h.0, h.1))
    where
      checked :
          (r : Option User) (s₁ : Session)
          → Of r s₁
          → Others (view s).durable (view s₁).durable
          → Outcome
              (Admitted (view s).durable)
              (Refused (view s).durable)
              (check_password db accounts verify_password create_access_token data'.password r s₁)
      checked none s₁ e o = (inr (refl, inl e), o)
      checked (some u) s₁ e o = elim (Bool-cases (verify_password data'.password u.password_hash)) [
        | inl right ↦ rw right (u, e, right, refl, o)
        | inr wrong ↦ rw wrong (inr (refl, inr (u, e, wrong)), o)
      ]
