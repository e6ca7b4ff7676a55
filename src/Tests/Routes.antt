-- ===== src/Tests/Routes.antt =====
-- `POST /payments/send` through the whole application over the quiet database: a run, and the theorems
-- about it at that request.
use payment_system.Base.{ℕ, ◌≡◌, refl, inl, false, String, Option, none, some, []}
use payment_system.Core.Exec.{ok, Exec}
use payment_system.Core.Outcome.{Outcome}
use payment_system.Core.Security.{Decoded, claims}
use payment_system.Models.Wallet.{Uuid}
use payment_system.Schemas.Payment.{TransactionResponse, transaction_response, accepts}
use payment_system.Store.Repositories.{
  get_by_user_id, get_by_id_for_update, update_balance, create, get_by_idempotency_key,
}
use payment_system.Cache.Idempotency.{check_key, store_key}
use payment_system.Cache.Keys.{uuid_text}
use payment_system.Cache.Limiter.{Request, limit}
use payment_system.Cache.Manager.{check_rate_limit}
use payment_system.Services.World.{World}
use payment_system.Services.Transfer.{execute_transfer}
use payment_system.Services.Payments.{send_money}
use payment_system.Api.Auth.{get_current_user_id}
use payment_system.Api.Context.{HttpRequest, Host, dispatch}
use payment_system.Api.Pipeline.{Routed, plain, serve}
use payment_system.Api.Pipeline.Statuses.{beside, hosted, plain_body}
use payment_system.Api.Sessions.{Sessions, with_db}
use payment_system.Api.Routes.{post_send}
use payment_system.Api.Routes.Send.{Served, Unserved, post_send_answers}
use payment_system.Api.Routes.Created.{Concluded, post_send_concludes}
use payment_system.Tests.Quiet.{Local, quiet}
use payment_system.Tests.Texts.{marks}
use payment_system.Tests.Server.{steady}
use payment_system.Tests.Transfers.{start_tables}
use payment_system.Tests.Payments.{request, entry, world}
use payment_system.Tests.Pipeline.{ticking, no_text, no_message}

abbrev fresh : Local → Local
fresh s = record s { seen = s.durable; seen_keyed = s.durable_keyed; held = λ id. false }

abbrev quiet_sessions : Sessions quiet
quiet_sessions = record {
  open_session = fresh;
  close = λ s. (ok tt, fresh s);
  open_session_law = λ s. (refl, refl);
  close_law = λ s. refl;
}

abbrev alice_token : String → Decoded
alice_token token = claims (some "alice")

abbrev alice_id : String → Option Uuid
alice_id text = some 12

abbrev visit : Request
visit = record { user_id = none; host = "10.0.0.1"; path = "/api/v1/payments/send" }

abbrev too_many : ℕ → String
too_many n = "Rate limit exceeded"

abbrev post : HttpRequest
post = record { method = "POST"; path = "/api/v1/payments/send"; x_request_id = some "abc" }

abbrev host : Host (World Local steady.Server × ℕ)
host = record { app = (world, 0); context = record { request_id = none; user_id = none }; log = [] }

abbrev route : Exec (World Local steady.Server) (Routed TransactionResponse)
route =
    post_send alice_token alice_id quiet quiet_sessions marks steady too_many [] visit "t" request

created :
    let out = serve (beside ticking) no_text no_message post (hosted route) host in
    out.0.body ≡ plain (transaction_response entry)
unfolding serve dispatch post_send limit check_rate_limit get_current_user_id with_db accepts
    send_money execute_transfer get_by_user_id get_by_id_for_update update_balance create
    get_by_idempotency_key check_key store_key uuid_text
created = refl

post_send_answers_example :
    Outcome {S = World Local steady.Server} {A = Routed TransactionResponse}
      (Served alice_token alice_id quiet quiet_sessions marks steady too_many [] visit "t" request
        start_tables)
      (Unserved alice_token alice_id quiet quiet_sessions marks steady too_many [] visit "t" request
        start_tables world)
      (post_send alice_token alice_id quiet quiet_sessions marks steady too_many [] visit "t"
        request world)
post_send_answers_example =
    post_send_answers alice_token alice_id quiet quiet_sessions marks steady too_many [] visit "t"
      request world (inl refl)

post_send_concludes_example :
    let out = serve (beside ticking) no_text no_message post (hosted route) host in
    Concluded alice_token alice_id quiet quiet_sessions marks steady too_many [] visit "t" request
      start_tables world out.0.status_code
      (plain_body out.0.body)
      out.1.app.0
post_send_concludes_example =
    post_send_concludes alice_token alice_id quiet quiet_sessions marks steady too_many [] visit "t"
      request ticking no_text no_message post host (inl refl)
