-- ===== src/Api/Routes/Created.antt =====
-- What the status of the response to `POST /payments/send` tells of the money: the route of
-- payment-system/app/api/v1/payments.py in the application of payment-system/app/main.py.
use payment_system.Base.{
  ℕ, ◌≡◌, ◌≤◌, ◌<◌, refl, sym, subst, ◌⊎◌, inl, inr, String, true, Option, none, some, List, arith,
}
use payment_system.Core.Exceptions.{
  Exception, user_not_found, user_already_exists, wallet_not_found, insufficient_balance,
  duplicate_transaction, self_transfer, optimistic_lock, http, integrity_error, unexpected,
  status_code,
}
use payment_system.Core.Exec.{Result, ok, err}
use payment_system.Core.Outcome.{Outcome}
use payment_system.Core.Security.{Decoded}
use payment_system.Models.Wallet.{Uuid}
use payment_system.Models.Tables.{Tables}
use payment_system.Schemas.Payment.{PaymentRequest, TransactionResponse}
use payment_system.Store.Database.{Database}
use payment_system.Cache.Redis.{Texts, Redis}
use payment_system.Cache.Idempotency.Replay.{IsCoherent}
use payment_system.Cache.Limiter.{Request}
use payment_system.Services.World.{World}
use payment_system.Services.Payments.Outcomes.{Denied, SentIn}
use payment_system.Api.Errors.{ValidationError}
use payment_system.Api.Auth.{get_current_user_id, Identifies, get_current_user_id-Identifies}
use payment_system.Api.Context.{HttpRequest, Host, Runtime}
use payment_system.Api.Pipeline.{Routed, serve}
use payment_system.Api.Pipeline.Statuses.{
  beside, hosted, plain_body, routed_body, routed_status, status_or_500, serve-hosted,
}
use payment_system.Api.Sessions.{Sessions}
use payment_system.Api.Routes.{post_send}
use payment_system.Api.Routes.Send.{Served, Unserved, post_send_answers}

module _ (decode : String → Decoded) (parse_uuid : String → Option Uuid) (db : Database)
    (sessions : Sessions db) (texts : Texts) (redis : Redis) (limit_detail : ℕ → String)
    (errors : List ValidationError) (visit : Request) (token : String) (request : PaymentRequest)
    (d : Tables) (w : World db.Session redis.Server) where
  open db use {view, Others}

  abbrev pub Created : ℕ → Option TransactionResponse → World db.Session redis.Server → Type 0
  Created status body w' =
      (status ≡ 201)
      × ((user : Uuid) × (get_current_user_id decode parse_uuid token ≡ ok user)
          × ((x : TransactionResponse) × (body ≡ some x)
              × SentIn db texts redis true user request d x w'))

  -- A refusal left nothing of its own durable.
  abbrev pub Refused : ℕ → World db.Session redis.Server → Type 0
  Refused status w' =
      (400 ≤ status)
      × (status < 500)
      × ((w'.session ≡ w.session) ⊎ Others d (view w'.session).durable)

  abbrev pub Concluded : ℕ → Option TransactionResponse → World db.Session redis.Server → Type 0
  Concluded status body w' = Created status body w' ⊎ (Refused status w' ⊎ (status ≡ 500))

  Denied-status :
      (e : Exception) (w' : World db.Session redis.Server)
      → Denied db texts redis request d (view w'.session).durable e
      → Concluded (status_or_500 (status_code e)) none w'
  unfolding status_code
  Denied-status wallet_not_found w' h = inr (inl (omega arith, omega arith, inr h))
  Denied-status self_transfer w' h = inr (inl (omega arith, omega arith, inr h))
  Denied-status duplicate_transaction w' h = inr (inl (omega arith, omega arith, inr h))
  Denied-status optimistic_lock w' h = inr (inl (omega arith, omega arith, inr h))
  Denied-status (insufficient_balance available required) w' h =
      inr (inl (omega arith, omega arith, inr h.2))
  Denied-status integrity_error w' h = inr (inr refl)
  Denied-status (unexpected class) w' h = inr (inr refl)
  Denied-status (user_not_found user_id) w' h = absurd h
  Denied-status (user_already_exists email) w' h = absurd h
  Denied-status (http status text) w' h = absurd h

  turned_status :
      (e : Exception) (w' : World db.Session redis.Server)
      → Identifies decode parse_uuid (decode token) (err e)
      → w'.session ≡ w.session
      → Concluded (status_or_500 (status_code e)) none w'
  unfolding status_code
  turned_status e w' (inl (bad, h)) s =
      subst (λ x. Concluded (status_or_500 (status_code x)) none w') (sym h)
        (inr (inl (omega arith, omega arith, inl s)))
  turned_status e w' (inr (inl (none_there, h))) s =
      subst (λ x. Concluded (status_or_500 (status_code x)) none w') (sym h)
        (inr (inl (omega arith, omega arith, inl s)))
  turned_status e w' (inr (inr (subject, claimed, none_there, h))) s =
      subst (λ x. Concluded (status_or_500 (status_code x)) none w') (sym h) (inr (inr refl))

  away :
      (status : ℕ) (detail : String) (e : Exception) (w' : World db.Session redis.Server)
      → e ≡ http status detail
      → 400 ≤ status
      → status < 500
      → w'.session ≡ w.session
      → Concluded (status_or_500 (status_code e)) none w'
  unfolding status_code
  away status detail e w' h low high s =
      subst (λ x. Concluded (status_or_500 (status_code x)) none w') (sym h)
        (inr (inl (low, high, inl s)))

  concluded :
      (r : Result (Routed TransactionResponse) × World db.Session redis.Server)
      → Outcome
          (Served decode parse_uuid db sessions texts redis limit_detail errors visit token request
            d)
          (Unserved decode parse_uuid db sessions texts redis limit_detail errors visit token
            request d w)
          r
      → Concluded (routed_status r.0) (routed_body r.0) r.1
  concluded (ok r, w') (user, known, inl (valid, (x, e, s))) =
      subst
        (λ (a : Routed TransactionResponse).
          Concluded (routed_status (ok a)) (routed_body (ok a)) w')
        (sym e) (inl (refl, (user, known, (x, refl, s))))
  concluded (ok r, w') (user, known, inr (wrong, e, o, k)) =
      subst
        (λ (a : Routed TransactionResponse).
          Concluded (routed_status (ok a)) (routed_body (ok a)) w')
        (sym e) (inr (inl (omega arith, omega arith, inr o)))
  concluded (err e, w') (inl (inl limited, s)) =
      away 429 _ e w' limited (omega arith) (omega arith) s
  concluded (err e, w') (inl (inr bad, s)) =
      turned_status e w'
        (subst (Identifies decode parse_uuid (decode token)) bad
          (get_current_user_id-Identifies decode parse_uuid token))
        s
  concluded (err e, w') (inr (user, known, f)) = Denied-status e w' f.denied

  answered_as :
      (status status' : ℕ) (body body' : Option TransactionResponse)
      (w₁ w₂ : World db.Session redis.Server)
      → (status' ≡ status) × (body' ≡ body) × (w₂ ≡ w₁)
      → Concluded status body w₁
      → Concluded status' body' w₂
  answered_as status status' body body' w₁ w₂ e c =
      subst (λ x. Concluded x body' w₂) (sym e.0)
        (subst (λ x. Concluded status x w₂) (sym e.1) (subst (Concluded status body) (sym e.2) c))

-- `POST /payments/send` through the whole application, whatever other sessions commit meanwhile and
-- whatever Redis does, if the cache entry of the key agrees with the ledger as the new session finds
-- it. A 201 is answered only to a token that identifies a user, and its body is that of the ledger
-- entry with the key of the request, which is durable, together with the transfer between the two
-- users' wallets unless other sessions wrote all that changed. Any other response is a 500, or has a
-- status from 400 to 499 and then nothing of this session is durable.
pub post_send_concludes :
    (decode : String → Decoded) (parse_uuid : String → Option Uuid) (db : Database)
    (sessions : Sessions db) (texts : Texts) (redis : Redis) (limit_detail : ℕ → String)
    (errors : List ValidationError) (visit : Request) (token : String) (request : PaymentRequest)
    {C : Type 0} (runtime : Runtime C) (decimal_text : ℕ → String)
    (exception_text : Exception → String) (http_request : HttpRequest)
    (host : Host (World db.Session redis.Server × C))
    → IsCoherent texts redis request.idempotency_key
        (db.view (sessions.open_session host.app.0.session)).durable
        host.app.0.server
    → let route =
        post_send decode parse_uuid db sessions texts redis limit_detail errors visit token
          request in
      let out =
        serve (beside runtime) decimal_text exception_text http_request (hosted route) host in
      Concluded decode parse_uuid db sessions texts redis limit_detail errors visit token request
        (db.view (sessions.open_session host.app.0.session)).durable
        host.app.0
        out.0.status_code
        (plain_body out.0.body)
        out.1.app.0
post_send_concludes decode parse_uuid db sessions texts redis limit_detail errors visit token
      request runtime decimal_text exception_text http_request host k =
    let route =
      post_send decode parse_uuid db sessions texts redis limit_detail errors visit token request in
    let d = (db.view (sessions.open_session host.app.0.session)).durable in
    answered_as decode parse_uuid db sessions texts redis limit_detail errors visit token request d
      host.app.0 _ _ _ _ _ _
      (serve-hosted runtime decimal_text exception_text http_request route host)
      (concluded decode parse_uuid db sessions texts redis limit_detail errors visit token request d
        host.app.0 (route host.app.0)
        (post_send_answers decode parse_uuid db sessions texts redis limit_detail errors visit token
          request host.app.0 k))
