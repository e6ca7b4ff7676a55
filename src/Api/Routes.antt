-- ===== src/Api/Routes.antt =====
-- The routes of payment-system/app/api/v1: users.py, wallets.py and payments.py. FastAPI solves the
-- dependencies of a route in order, those of its decorator first, and validates the body and the
-- query after them. `HTTPBearer`, the parser of bodies, pydantic's messages, hashing and tokens are
-- parameters.
pub mod Answered
pub mod Send
pub mod Created
use payment_system.Base.{ℕ, String, Bool, true, Option, List, [], if◌then◌else◌}
use payment_system.Core.Exec.{Result, Exec, pure, ◌>>=◌, ◌>>◌}
use payment_system.Core.Security.{Decoded}
use payment_system.Models.Wallet.{Uuid}
use payment_system.Schemas.Payment.{
  PaymentRequest, accepts, TransactionResponse, TransactionListResponse,
}
use payment_system.Schemas.User.{UserCreate, accepts_user, UserLogin, UserResponse, TokenResponse}
use payment_system.Schemas.Wallet.{WalletTopUp, accepts_top_up, WalletResponse}
use payment_system.Store.Database.{Database}
use payment_system.Store.Accounts.{Accounts}
use payment_system.Store.Paging.{Paging}
use payment_system.Cache.Redis.{Texts, Redis}
use payment_system.Cache.Keys.{uuid_text}
use payment_system.Cache.Limiter.{Request, payment_rate_limit, limit}
use payment_system.Services.World.{World, on_session, on_server}
use payment_system.Services.Wallets.{get_wallet, top_up}
use payment_system.Services.Payments.{send_money}
use payment_system.Services.Users.{register, login, get_user}
use payment_system.Api.Errors.{ValidationError}
use payment_system.Api.Auth.{get_current_user_id}
use payment_system.Api.Transactions.{get_transaction}
use payment_system.Api.History.{accepts_page, get_transaction_history}
use payment_system.Api.Sessions.{Sessions, with_db}
use payment_system.Api.Pipeline.{Routed, answered, invalid}

abbrev pub reply : {B : Type 0} → ℕ → B → Routed B
reply status body = answered (record { status_code = status; headers = []; body = body })

module _ {S : Type 0} where
  abbrev pub of_result : {A : Type 0} → Result A → Exec S A
  of_result r s = (r, s)

  -- The request is validated, and `errors` answered if it does not pass.
  abbrev pub validated :
      {A : Type 0} → Bool → List ValidationError → ℕ → Exec S A → Exec S (Routed A)
  validated valid errors status handler =
      if valid then (do a ← handler; pure (reply status a)) else pure (invalid errors)

module _ (decode : String → Decoded) (parse_uuid : String → Option Uuid) (db : Database)
    (sessions : Sessions db) {Server A : Type 0} where
  -- `Depends(get_current_user_id)`, then `Depends(get_db)`.
  abbrev pub authenticated :
      String
      → (Uuid → Exec (World db.Session Server) (Routed A))
      → Exec (World db.Session Server) (Routed A)
  authenticated token handler = do
    user_id ← of_result (get_current_user_id decode parse_uuid token)
    with_db db sessions (handler user_id)

module _ (decode : String → Decoded) (parse_uuid : String → Option Uuid) (db : Database)
    (sessions : Sessions db) (texts : Texts) (redis : Redis) where
  -- `POST /payments/send`. The rate limit stands in the decorator. `limit_detail` is the text of its
  -- refusal.
  unfoldable pub post_send :
      (ℕ → String)
      → List ValidationError
      → Request
      → String
      → PaymentRequest
      → Exec (World db.Session redis.Server) (Routed TransactionResponse)
  post_send limit_detail errors visit token request = do
    on_server (limit texts redis limit_detail payment_rate_limit visit)
    authenticated decode parse_uuid db sessions token (λ user_id.
        validated (accepts request) errors 201 (send_money db texts redis true user_id request))

  -- `GET /wallets/me`
  unfoldable pub get_my_wallet :
      String → Exec (World db.Session redis.Server) (Routed WalletResponse)
  get_my_wallet token =
      authenticated decode parse_uuid db sessions token
        (λ user_id. validated true [] 200 (get_wallet db texts redis true user_id))

  -- `POST /wallets/me/top-up`
  unfoldable pub post_top_up :
      List ValidationError
      → String
      → WalletTopUp
      → Exec (World db.Session redis.Server) (Routed WalletResponse)
  post_top_up errors token data' = authenticated decode parse_uuid db sessions token (λ user_id.
      validated (accepts_top_up data') errors 200 (top_up db texts redis true user_id data'.amount))

module _ (decode : String → Decoded) (parse_uuid : String → Option Uuid) (db : Database)
    (sessions : Sessions db) {Server : Type 0} where
  -- `GET /payments/transactions/{transaction_id}`
  unfoldable pub get_transaction_route :
      String → Uuid → Exec (World db.Session Server) (Routed TransactionResponse)
  get_transaction_route token transaction_id =
      authenticated decode parse_uuid db sessions token
        (λ user_id. validated true [] 200 (on_session (get_transaction db transaction_id user_id)))

  -- `GET /payments/history`
  unfoldable pub get_history :
      Paging db
      → List ValidationError
      → String
      → ℕ
      → ℕ
      → Option String
      → Exec (World db.Session Server) (Routed TransactionListResponse)
  get_history paging errors token page page_size status =
      authenticated decode parse_uuid db sessions token (λ user_id.
        validated (accepts_page page page_size) errors 200
          (on_session (get_transaction_history db paging user_id page page_size status)))

  -- `GET /users/me`
  unfoldable pub get_me :
      Accounts db → String → Exec (World db.Session Server) (Routed UserResponse)
  get_me accounts token =
      authenticated decode parse_uuid db sessions token
        (λ user_id. validated true [] 200 (on_session (get_user db accounts uuid_text user_id)))

module _ (db : Database) (sessions : Sessions db) (accounts : Accounts db) {Server : Type 0} where
  -- `POST /users/register`
  unfoldable pub post_register :
      (String → Bool)
      → (String → String)
      → List ValidationError
      → UserCreate
      → Exec (World db.Session Server) (Routed UserResponse)
  post_register is_email hash_password errors data' = with_db db sessions (
      validated (accepts_user is_email data') errors 201
        (on_session (register db accounts hash_password data')))

  -- `POST /users/login`
  unfoldable pub post_login :
      (String → Bool)
      → (String → String → Bool)
      → (Uuid → String)
      → List ValidationError
      → UserLogin
      → Exec (World db.Session Server) (Routed TokenResponse)
  post_login is_email verify_password create_access_token errors data' = with_db db sessions (
      validated (is_email data'.email) errors 200
        (on_session (login db accounts verify_password create_access_token data')))
