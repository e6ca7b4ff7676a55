-- ===== src/Api/Pipeline/Statuses.antt =====
-- The status with which the application of payment-system/app/main.py answers, for a route that works
-- on the database and the cache beside the clock of the process.
use payment_system.Base.{ℕ, String, ◌≡◌, refl, Option, none, some}
use payment_system.Core.Exceptions.{Exception, status_code}
use payment_system.Core.Exec.{Result, ok, err, Exec}
use payment_system.Core.Logging.{Context}
use payment_system.Api.Errors.{
  http_exception_handler, validation_exception_handler, unhandled_exception_handler,
}
use payment_system.Api.Context.{HttpRequest, Host, Runtime, finish, dispatch}
use payment_system.Api.Pipeline.{
  Routed, answered, invalid, Body, plain, problem, by_class, handled, recovered, serve,
}

-- The clock and the random ids do not touch the rest.
abbrev pub beside : {W C : Type 0} → Runtime C → Runtime (W × C)
beside runtime = record {
  perf_counter = λ s. ((runtime.perf_counter s.1).0, (s.0, (runtime.perf_counter s.1).1));
  uuid4 = λ s. ((runtime.uuid4 s.1).0, (s.0, (runtime.uuid4 s.1).1));
  elapsed_text = runtime.elapsed_text;
  number_text = runtime.number_text;
  class_name = runtime.class_name;
}

-- A route as the host runs it.
abbrev pub hosted : {W C A : Type 0} → Exec W A → Exec (Host (W × C)) A
hosted m host = let (r, w) = m host.app.0 in (r, record host { app = (w, host.app.1) })

abbrev pub status_or_500 : Option ℕ → ℕ
status_or_500 none = 500
status_or_500 (some status) = status

abbrev pub routed_status : {B : Type 0} → Result (Routed B) → ℕ
routed_status (ok (answered r)) = r.status_code
routed_status (ok (invalid errors)) = 422
routed_status (err e) = status_or_500 (status_code e)

-- The body that a route answered, in the response and in what the route did.
abbrev pub plain_body : {B : Type 0} → Body B → Option B
plain_body (plain b) = some b
plain_body (problem p) = none

abbrev pub routed_body : {B : Type 0} → Result (Routed B) → Option B
routed_body (ok (answered r)) = some r.body
routed_body (ok (invalid errors)) = none
routed_body (err e) = none

module _ {W C : Type 0} (runtime : Runtime C) (decimal_text : ℕ → String)
    (exception_text : Exception → String) (request : HttpRequest) where
  ends_by_class :
      (B : Type 0) (e : Exception) (h : Host (W × C)) (status : Option ℕ) (rid : String)
      (context : Context) (start : ℕ)
      → let out = recovered (beside runtime) exception_text request (
          finish
            (beside runtime)
            request
            rid
            context
            start
            (by_class {B = B} decimal_text e status h)) in
        (out.0.status_code ≡ status_or_500 status)
        × (plain_body out.0.body ≡ none)
        × (out.1.app.0 ≡ h.app.0)
  unfolding recovered finish http_exception_handler unhandled_exception_handler
  ends_by_class B e h none rid context start = (refl, refl, refl)
  ends_by_class B e h (some status) rid context start = (refl, refl, refl)

module _ {W C B : Type 0} (runtime : Runtime C) (decimal_text : ℕ → String)
    (exception_text : Exception → String) (request : HttpRequest) where
  -- The status and the state that the client and the next request find.
  abbrev Ends : ℕ → Option B → W → Result (Routed B) × Host (W × C) → String → Context → ℕ → Type 0
  Ends status body w r rid context start =
      let out =
        recovered (beside runtime) exception_text request
          (finish (beside runtime) request rid context start (handled decimal_text r)) in
      (out.0.status_code ≡ status) × (plain_body out.0.body ≡ body) × (out.1.app.0 ≡ w)

  ends :
      (r : Result (Routed B) × Host (W × C)) (rid : String) (context : Context) (start : ℕ)
      → Ends (routed_status r.0) (routed_body r.0) r.1.app.0 r rid context start
  unfolding recovered finish handled validation_exception_handler
  ends (ok (answered a), h) rid context start = (refl, refl, refl)
  ends (ok (invalid errors), h) rid context start = (refl, refl, refl)
  ends (err e, h) rid context start =
      ends_by_class runtime decimal_text exception_text request B e h (status_code e) rid context
        start

  pub serve-hosted :
      (route : Exec W (Routed B)) (host : Host (W × C))
      → let out = serve (beside runtime) decimal_text exception_text request (hosted route) host in
        (out.0.status_code ≡ routed_status (route host.app.0).0)
        × (plain_body out.0.body ≡ routed_body (route host.app.0).0)
        × (out.1.app.0 ≡ (route host.app.0).1)
  unfolding serve dispatch
  serve-hosted route host = ends _ _ _ _
