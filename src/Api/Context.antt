-- ===== src/Api/Context.antt =====
-- `RequestContextMiddleware` of payment-system/app/middleware/request_context.py. The clock, the
-- random ids and the texts of numbers are parameters.
use Prim.Native.String.{◌++◌}
use payment_system.Base.{ℕ, String, Option, none, some, List, ◌∷◌}
use payment_system.Base.Dict.{update}
use payment_system.Core.Exceptions.{Exception}
use payment_system.Core.Exec.{Result, ok, err, Exec}
use payment_system.Core.Logging.{Context, LogRecord}

-- `request.method`, `request.url.path`, and `request.headers.get("X-Request-ID")`.
pub record HttpRequest : Type 0 where
  pub method : String
  pub path : String
  pub x_request_id : Option String

-- The headers that handlers and middleware set, under their names in lower case.
abbrev pub Headers : Type 0
Headers = List (String × String)

pub record Response (B : Type 0) : Type 0 where
  pub status_code : ℕ
  pub headers : Headers
  pub body : B

-- A line as the handler writes it, with the context variables of that moment.
pub record Line : Type 0 where
  pub context : Context
  pub content : LogRecord

-- The process: the state of the application, the context variables of the task at hand, and the lines
-- that were logged, the last one first.
pub record Host (S : Type 0) : Type 0 where
  pub app : S
  pub context : Context
  pub log : List Line

-- `time.perf_counter()`, `str(uuid.uuid4())`, `f"{elapsed:.1f}"` of the time between two moments, the
-- text of a number, and `type(e).__name__`.
pub record Runtime (S : Type 0) : Type 0 where
  pub perf_counter : S → ℕ × S
  pub uuid4 : S → String × S
  pub elapsed_text : ℕ → ℕ → String
  pub number_text : ℕ → String
  pub class_name : Exception → String

abbrev pub write : {S : Type 0} → LogRecord → Host S → Host S
write content host = record host {
  log = record { context = host.context; content = content } ∷ host.log;
}

module _ {S : Type 0} (runtime : Runtime S) where
  -- The id of the request: the one that the client sent, or a new one.
  abbrev pub request_id_of : HttpRequest → Host S → String
  request_id_of request host = elim request.x_request_id [
    | none ↦ (runtime.uuid4 host.app).0
    | some id ↦ id
  ]

  abbrev pub failed_line : HttpRequest → Exception → String → LogRecord
  failed_line request e elapsed = record {
    levelname = "ERROR";
    module_name = "request_context";
    func_name = "dispatch";
    lineno = 42;
    message =
        "Request failed: "
        ++ request.method
        ++ " "
        ++ request.path
        ++ " -> "
        ++ runtime.class_name e
        ++ " ("
        ++ elapsed
        ++ "ms)";
    exc_info = none;
  }

  abbrev pub done_line : HttpRequest → ℕ → String → LogRecord
  done_line request status elapsed = record {
    levelname = "INFO";
    module_name = "request_context";
    func_name = "dispatch";
    lineno = 55;
    message =
        request.method
        ++ " "
        ++ request.path
        ++ " -> "
        ++ runtime.number_text status
        ++ " ("
        ++ elapsed
        ++ "ms)";
    exc_info = none;
  }

module _ {S B : Type 0} (runtime : Runtime S) where
  -- What follows `call_next`, which ran in a task of its own on a copy of the context.
  unfoldable pub finish :
      HttpRequest
      → String
      → Context
      → ℕ
      → Result (Response B) × Host S
      → Result (Response B) × Host S
  finish request rid context start (err e, host) =
      let (now, app) = runtime.perf_counter host.app in
      let elapsed = runtime.elapsed_text start now in
      (
        err e,
        write (failed_line runtime request e elapsed)
            (record host { app = app; context = context }),
      )
  finish request rid context start (ok response, host) =
      let (now, app) = runtime.perf_counter host.app in
      let elapsed = runtime.elapsed_text start now in
      (
        ok (record response {
          headers =
              update "x-response-time-ms" elapsed (update "x-request-id" rid response.headers);
        }),
        write (done_line runtime request response.status_code elapsed)
            (record host { app = app; context = context }),
      )

  unfoldable pub dispatch : HttpRequest → Exec (Host S) (Response B) → Exec (Host S) (Response B)
  unfolding finish
  dispatch request call_next host =
      let rid = request_id_of runtime request host in
      let context : Context = record { request_id = some rid; user_id = some "anonymous" } in
      let (start, app) = runtime.perf_counter (runtime.uuid4 host.app).1 in
      finish request rid context start (call_next (record host { app = app; context = context }))
