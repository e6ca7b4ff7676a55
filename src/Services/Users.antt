-- ===== src/Services/Users.antt =====
-- `UserService` of payment-system/app/services/user_service.py, with the user repository. Password
-- hashing and tokens are bcrypt and jose, and are parameters.
pub mod Registration
pub mod Login
use payment_system.Base.{String, Bool, ◌||◌, not, Option, none, some, ◌==◌, if◌then◌else◌}
use payment_system.Core.Exceptions.{user_not_found, user_already_exists}
use payment_system.Core.Exec.{Exec, pure, raise, or_raise, ◌>>=◌, ◌>>◌}
use payment_system.Models.Wallet.{Uuid, Wallet}
use payment_system.Models.User.{User}
use payment_system.Schemas.User.{
  UserCreate, UserLogin, UserResponse, user_response, TokenResponse, token_response,
}
use payment_system.Store.Database.{Database}
use payment_system.Store.Accounts.{has_email, Accounts}

module _ (db : Database) (accounts : Accounts db) where
  open db use {Session, commit}
  open accounts use {select_user, insert_user, insert_wallet, refresh_user}

  unfoldable pub get_user_by_id : Uuid → Exec Session (Option User)
  get_user_by_id user_id = select_user (λ u. u.id == user_id)

  unfoldable pub get_by_email : String → Exec Session (Option User)
  get_by_email email = select_user (has_email email)

  unfoldable pub create_user : String → String → String → Exec Session User
  create_user email password_hash full_name = insert_user email password_hash full_name

  unfoldable pub create_wallet : Uuid → Exec Session Wallet
  create_wallet user_id = insert_wallet user_id

  -- The new user and the wallet, in one commit.
  unfoldable pub add_user : (String → String) → UserCreate → Exec Session UserResponse
  unfolding create_user create_wallet
  add_user hash_password data' = do
    user ← create_user data'.email (hash_password data'.password) data'.full_name
    wallet ← create_wallet user.id
    commit
    refreshed ← refresh_user user
    pure (user_response refreshed)

  unfoldable pub unless_taken :
      (String → String) → UserCreate → Option User → Exec Session UserResponse
  unfolding add_user
  unless_taken hash_password data' (some existing) = raise (user_already_exists data'.email)
  unless_taken hash_password data' none = add_user hash_password data'

  unfoldable pub register : (String → String) → UserCreate → Exec Session UserResponse
  unfolding get_by_email unless_taken
  register hash_password data' = do
    existing ← get_by_email data'.email
    unless_taken hash_password data' existing

  -- `if not user or not verify_password(...): raise UserNotFoundException()`
  abbrev pub check_password :
      (String → String → Bool) → (Uuid → String) → String → Option User → Exec Session TokenResponse
  check_password verify_password create_access_token password none = raise (user_not_found "")
  check_password verify_password create_access_token password (some user) =
      if verify_password password user.password_hash
      then pure (token_response (create_access_token user.id))
      else raise (user_not_found "")

  unfoldable pub login :
      (String → String → Bool) → (Uuid → String) → UserLogin → Exec Session TokenResponse
  unfolding get_by_email
  login verify_password create_access_token data' = do
    user ← get_by_email data'.email
    check_password verify_password create_access_token data'.password user

  -- `uuid_text` is `str(user_id)`.
  unfoldable pub get_user : (Uuid → String) → Uuid → Exec Session UserResponse
  unfolding get_user_by_id
  get_user uuid_text user_id = do
    found ← get_user_by_id user_id
    user ← or_raise (user_not_found (uuid_text user_id)) found
    pure (user_response user)
