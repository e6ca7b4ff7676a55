-- ===== src/Api/Routes/Send.antt =====
-- `POST /payments/send` of payment-system/app/api/v1/payments.py from the rate limit to the closed
-- session.
use payment_system.Base.{ℕ, ◌≡◌, ◌≢◌, refl, ◌∙◌, ◌⊎◌, inl, inr, String, true, Option, List}
use payment_system.Core.Exceptions.{Exception, http}
use payment_system.Core.Exec.{Result, ok, err, ◌>>=◌}
use payment_system.Core.Outcome.{Outcome, Outcome-weaken}
use payment_system.Core.Security.{Decoded}
use payment_system.Models.Wallet.{Uuid}
use payment_system.Models.Tables.{Tables}
use payment_system.Schemas.Payment.{PaymentRequest, accepts, TransactionResponse}
use payment_system.Store.Database.{Database}
use payment_system.Cache.Redis.{Texts, Redis, FadesBut}
use payment_system.Cache.Keys.{rate_limit_key, idempotency_cache_key}
use payment_system.Cache.Idempotency.Replay.{IsCoherent}
use payment_system.Cache.Limiter.{Request, identifier, payment_rate_limit, limit}
use payment_system.Cache.Limiter.Entries.{idempotency-ne-rate_limit, limit-FadesBut}
use payment_system.Services.World.{World, on_server-bind}
use payment_system.Services.Payments.{send_money}
use payment_system.Services.Payments.Outcomes.{FailedIn}
use payment_system.Api.Errors.{ValidationError}
use payment_system.Api.Auth.{get_current_user_id}
use payment_system.Api.Pipeline.{Routed}
use payment_system.Api.Sessions.{Sessions, with_db}
use payment_system.Api.Routes.{of_result, validated, post_send}
use payment_system.Api.Routes.Answered.{Answered, closed_law}

module _ (decode : String → Decoded) (parse_uuid : String → Option Uuid) (db : Database)
    (sessions : Sessions db) (texts : Texts) (redis : Redis) (limit_detail : ℕ → String)
    (errors : List ValidationError) (visit : Request) (token : String) (request : PaymentRequest)
    (d : Tables) where
  open db use {Session, view, Others, others_refl, others_trans}
  open redis use {Server, entry}

  abbrev Key : Tables → Server → Type 0
  Key t c = IsCoherent texts redis request.idempotency_key t c

  -- Refused before a session was opened: over the limit, or with a token that does not identify a
  -- user.
  abbrev pub TurnedAway : World Session Server → Exception → World Session Server → Type 0
  TurnedAway w e w' =
      ((e ≡ http 429 (limit_detail payment_rate_limit))
        ⊎ (get_current_user_id decode parse_uuid token ≡ err e))
      × (w'.session ≡ w.session)

  abbrev pub Served : Routed TransactionResponse → World Session Server → Type 0
  Served r w' =
      (user : Uuid) × (get_current_user_id decode parse_uuid token ≡ ok user)
      × Answered db sessions texts redis errors request d user r w'

  abbrev pub Unserved : World Session Server → Exception → World Session Server → Type 0
  Unserved w e w' =
      TurnedAway w e w'
      ⊎ ((user : Uuid) × (get_current_user_id decode parse_uuid token ≡ ok user)
          × FailedIn db texts redis true user request d e w')

  authenticated_law :
      (w : World Session Server) (w₁ : World Session Server) (user : Result Uuid)
      → get_current_user_id decode parse_uuid token ≡ user
      → w₁.session ≡ w.session
      → (view (sessions.open_session w₁.session)).durable ≡ d
      → Key d w₁.server
      → Outcome Served (Unserved w) (
          (of_result user >>= λ user_id.
          with_db db sessions (
            validated
              (accepts request)
              errors
              201
              (send_money db texts redis true user_id request)))
            w₁)
  authenticated_law w w₁ (err e) h kept same k = inl (inr h, kept)
  authenticated_law w w₁ (ok user) h kept same k =
      Outcome-weaken (Answered db sessions texts redis errors request d user) Served
        (FailedIn db texts redis true user request d) (Unserved w) _
        (closed_law db sessions texts redis errors request d user w₁ same k)
        (λ r w' a. (user, h, a)) (λ e w' f. inr (user, h, f))

  limited_law :
      (w : World Session Server) (c : Server)
      → (view (sessions.open_session w.session)).durable ≡ d
      → Key d w.server
      → FadesBut (rate_limit_key (identifier visit) visit.path) (entry w.server) (entry c)
      → Key d c
  limited_law w c same k f = elim (f (idempotency_cache_key request.idempotency_key) apart) [
    | inl e ↦ kept e k
    | inr gone ↦ inl gone
  ]
    where
      apart :
          idempotency_cache_key request.idempotency_key
          ≢ rate_limit_key (identifier visit) visit.path
      apart = idempotency-ne-rate_limit request.idempotency_key (identifier visit) visit.path

      kept :
          entry c (idempotency_cache_key request.idempotency_key)
            ≡ entry w.server (idempotency_cache_key request.idempotency_key)
          → Key d w.server
          → Key d c
      kept e (inl none_there) = inl (e ∙ none_there)
      kept e (inr (x, found, there)) = inr (x, found, e ∙ there)

  post_send_law :
      (w : World Session Server)
      → (view (sessions.open_session w.session)).durable ≡ d
      → Key d w.server
      → Outcome Served (Unserved w) (
          post_send decode parse_uuid db sessions texts redis limit_detail errors visit token
            request w)
  unfolding post_send
  post_send_law w same k =
      on_server-bind _ _ Served (Unserved w)
        (limit texts redis limit_detail payment_rate_limit visit) w _
        (limit-FadesBut texts redis limit_detail payment_rate_limit visit w.server)
        (λ _ c f.
          authenticated_law w (record w { server = c })
            (get_current_user_id decode parse_uuid token) refl refl same (limited_law w c same k f))
        (λ e c h. inl (inl h.0, refl))

-- `POST /payments/send`, whatever other sessions commit meanwhile and whatever Redis does, if the cache
-- entry of the key agrees with the ledger as the new session finds it: a request that is answered
-- carries a token that identifies a user, and either did not validate and got the errors, or got a 201
-- with the ledger entry of its key, which is durable and which other sessions wrote or this one with
-- the transfer between the two users' wallets. One that raises was over the rate limit or has no such
-- token, and then no session was opened, or has left nothing of its own durable, unless its exception
-- is an unexpected one.
pub post_send_answers :
    (decode : String → Decoded) (parse_uuid : String → Option Uuid) (db : Database)
    (sessions : Sessions db) (texts : Texts) (redis : Redis) (limit_detail : ℕ → String)
    (errors : List ValidationError) (visit : Request) (token : String) (request : PaymentRequest)
    (w : World db.Session redis.Server)
    → IsCoherent texts redis request.idempotency_key
        (db.view (sessions.open_session w.session)).durable
        w.server
    → let d = (db.view (sessions.open_session w.session)).durable in
      Outcome
        (Served decode parse_uuid db sessions texts redis limit_detail errors visit token request d)
        (Unserved decode parse_uuid db sessions texts redis limit_detail errors visit token request
          d w)
        (post_send decode parse_uuid db sessions texts redis limit_detail errors visit token request
          w)
post_send_answers decode parse_uuid db sessions texts redis limit_detail errors visit token request
      w k =
    post_send_law decode parse_uuid db sessions texts redis limit_detail errors visit token request
      _ w refl k
