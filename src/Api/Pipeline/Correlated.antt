-- ===== src/Api/Pipeline/Correlated.antt =====
-- The request id in responses and log lines: payment-system/app/main.py with
-- payment-system/app/middleware/request_context.py and payment-system/app/middleware/error_handler.py.
use mathlib.Core.List.{◌++◌}
use payment_system.Base.{
  ℕ, ◌≤◌, ◌≡◌, refl, ap, String, ◌⊎◌, inl, inr, Option, none, some, List, [], ◌∷◌, length, arith,
}
use payment_system.Base.Dict.{lookup, update, lookup-update}
use payment_system.Core.Exceptions.{Exception, status_code}
use payment_system.Core.Exec.{Result, ok, err, Exec}
use payment_system.Core.Settings.{Settings}
use payment_system.Core.Logging.{Context, get, string, log_entry}
use payment_system.Api.Errors.{
  http_exception_handler, validation_exception_handler, unhandled_exception_handler,
}
use payment_system.Api.Context.{
  HttpRequest, Response, Line, Host, Runtime, request_id_of, finish, dispatch,
}
use payment_system.Api.Pipeline.{
  Routed, answered, invalid, Body, plain, problem, json_response, by_class, handled, recovered,
  serve,
}

-- An error body tells the id.
abbrev pub Tells : {B : Type 0} → String → Body B → Type 0
Tells rid (plain b) = Unit {0}
Tells rid (problem b) = b.request_id ≡ rid

module _ {S B : Type 0} (runtime : Runtime S) (decimal_text : ℕ → String)
    (exception_text : Exception → String) (request : HttpRequest) (route : Exec (Host S) (Routed B))
    (host : Host S) where
  -- What the route is run on.
  abbrev pub entered : Host S
  entered = record host {
    app = (runtime.perf_counter (runtime.uuid4 host.app).1).1;
    context = record {
      request_id = some (request_id_of runtime request host);
      user_id = some "anonymous";
    };
  }

  -- The route raised an exception that no handler within the middleware takes.
  abbrev pub Escapes : Result (Routed B) × Host S → Response (Body B) → Type 0
  Escapes r out =
      (e : Exception) × (r.0 ≡ err e)
      × (status_code e ≡ none)
      × (out ≡ json_response (unhandled_exception_handler (request_id_of runtime request host)))

  abbrev pub Correlated : Result (Routed B) × Host S → Response (Body B) → Type 0
  Correlated r out =
      Tells (request_id_of runtime request host) out.body
      × ((lookup "x-request-id" out.headers ≡ some (request_id_of runtime request host))
          ⊎ Escapes r out)

  -- An answer from within the middleware gets the header.
  header_set :
      (elapsed rid : String) (headers : List (String × String))
      → lookup "x-request-id"
          (update "x-response-time-ms" elapsed (update "x-request-id" rid headers))
        ≡ some rid
  header_set elapsed rid headers = simp lookup-update

  abbrev Rest : Result (Routed B) × Host S → Response (Body B) × Host S
  Rest r = recovered runtime exception_text request (
      finish runtime request (request_id_of runtime request host) entered.context
        (runtime.perf_counter (runtime.uuid4 host.app).1).0 (handled decimal_text r))

  by_status :
      (e : Exception) (h : Host S) (status : Option ℕ)
      → status_code e ≡ status
      → h.context ≡ entered.context
      → Correlated
          (err e, h)
          (recovered runtime exception_text request (
            finish runtime request
              (request_id_of runtime request host)
              entered.context
              (runtime.perf_counter (runtime.uuid4 host.app).1).0
              (by_class decimal_text e status h))).0
  unfolding recovered finish http_exception_handler
  by_status e h none s c = (refl, inr (e, refl, s, refl))
  by_status e h (some status) s c = (ap (λ (x : Context). get x.request_id "-") c, inl refl)

  rest_Correlated :
      (r : Result (Routed B) × Host S) → r.1.context ≡ entered.context → Correlated r (Rest r).0
  unfolding recovered finish handled validation_exception_handler
  rest_Correlated (ok (answered a), h) c = (tt, inl (header_set _ _ a.headers))
  rest_Correlated (ok (invalid errors), h) c =
      (ap (λ (x : Context). get x.request_id "-") c, inl refl)
  rest_Correlated (err e, h) c = by_status e h (status_code e) refl c

  -- Whatever the route does, if it leaves the context variables as they are: every error body tells
  -- the id of the request, which is the one that the client sent or else a new one, and so does the
  -- header X-Request-ID of every response but one, the 500 for an exception that is no HTTPException,
  -- which has no such header.
  pub serve-Correlated :
      (route entered).1.context ≡ entered.context
      → Correlated (route entered) (serve runtime decimal_text exception_text request route host).0
  unfolding serve dispatch
  serve-Correlated keeps = rest_Correlated (route entered) keeps

  -- The JSON line for each log entry names the id, whatever the settings and the moment.
  abbrev pub Traced : List Line → Type 0
  Traced [] = Unit {0}
  Traced (l ∷ ls) =
      ((settings : Settings) (now : String)
        → lookup "request_id" (log_entry settings l.context now l.content)
          ≡ some (string (request_id_of runtime request host)))
      × Traced ls

  abbrev pub Adds : List Line → List Line → Type 0
  Adds before after = (new : List Line) × (after ≡ new ++ before) × Traced new × (1 ≤ length new)

  by_status-Adds :
      (e : Exception) (h : Host S) (status : Option ℕ)
      → Adds h.log
          (recovered runtime exception_text request (
            finish runtime request
              (request_id_of runtime request host)
              entered.context
              (runtime.perf_counter (runtime.uuid4 host.app).1).0
              (by_class {B = B} decimal_text e status h))).1.log
  unfolding recovered finish log_entry
  by_status-Adds e h none =
      (_ ∷ _ ∷ [], refl, (λ settings now. refl, (λ settings now. refl, tt)), omega arith)
  by_status-Adds e h (some status) = (_ ∷ [], refl, (λ settings now. refl, tt), omega arith)

  rest-Adds : (r : Result (Routed B) × Host S) → Adds r.1.log (Rest r).1.log
  unfolding recovered finish handled log_entry
  rest-Adds (ok (answered a), h) = (_ ∷ [], refl, (λ settings now. refl, tt), omega arith)
  rest-Adds (ok (invalid errors), h) = (_ ∷ [], refl, (λ settings now. refl, tt), omega arith)
  rest-Adds (err e, h) = by_status-Adds e h (status_code e)

  -- Whatever the route does, the application adds at least one line to those that the route logged, and
  -- the JSON form of each line that it adds names the id of the request, which is the one that the
  -- client sent or else a new one.
  pub serve-Adds :
      Adds
        (route entered).1.log
        (serve runtime decimal_text exception_text request route host).1.log
  unfolding serve dispatch
  serve-Adds = rest-Adds (route entered)
