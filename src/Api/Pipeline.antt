-- ===== src/Api/Pipeline.antt =====
-- The way of a request through the application of payment-system/app/main.py: Starlette's server
-- error middleware with the handler for `Exception`, `RequestContextMiddleware`, Starlette's exception
-- middleware with the other two handlers of payment-system/app/middleware/error_handler.py, and the
-- route. The CORS middleware, between the first two, adds headers of its own only.
pub mod Correlated
pub mod Statuses
use Prim.Native.String.{◌++◌}
use payment_system.Base.{ℕ, String, Option, none, some, List, []}
use payment_system.Core.Exceptions.{Exception, status_code, detail}
use payment_system.Core.Exec.{Result, ok, err, Exec}
use payment_system.Core.Logging.{LogRecord, get}
use payment_system.Api.Errors.{
  ValidationError, ErrorBody, JsonResponse, http_exception_handler, validation_exception_handler,
  unhandled_exception_handler,
}
use payment_system.Api.Context.{HttpRequest, Response, Host, Runtime, write, dispatch}

-- What a route does that raises none but the program's exceptions: it answers, or its request does
-- not validate (`RequestValidationError`).
pub data Routed (B : Type 0) : Type 0 where
  answered : Response B → Routed B
  invalid : List ValidationError → Routed B

pub data Body (B : Type 0) : Type 0 where
  plain : B → Body B
  problem : ErrorBody → Body B

abbrev pub json_response : {B : Type 0} → JsonResponse → Response (Body B)
json_response r = record { status_code = r.status_code; headers = []; body = problem r.content }

abbrev pub request_id : {S : Type 0} → Host S → String
request_id host = get host.context.request_id "-"

module _ {S : Type 0} (runtime : Runtime S) (exception_text : Exception → String) where
  abbrev pub unhandled_line : HttpRequest → Exception → LogRecord
  unhandled_line request e = record {
    levelname = "ERROR";
    module_name = "error_handler";
    func_name = "unhandled_exception_handler";
    lineno = 67;
    message = "Unhandled exception on " ++ request.method ++ " " ++ request.path;
    exc_info = some (runtime.class_name e, exception_text e);
  }

module _ {S B : Type 0} (decimal_text : ℕ → String) where
  -- An `HTTPException` or one of its subclasses has a handler, the other exceptions pass.
  abbrev pub by_class : Exception → Option ℕ → Exec (Host S) (Response (Body B))
  by_class e (some status) host = (
    ok (json_response (http_exception_handler (request_id host) status (detail decimal_text e))),
    host,
  )
  by_class e none host = (err e, host)

  unfoldable pub handled : Result (Routed B) × Host S → Result (Response (Body B)) × Host S
  unfolding http_exception_handler validation_exception_handler
  handled (ok (answered r), host) =
      (ok (record { status_code = r.status_code; headers = r.headers; body = plain r.body }), host)
  handled (ok (invalid errors), host) =
      (ok (json_response (validation_exception_handler (request_id host) errors)), host)
  handled (err e, host) = by_class e (status_code e) host

module _ {S B : Type 0} (runtime : Runtime S) (exception_text : Exception → String) where
  -- Once it has answered, the error middleware raises the exception again to the server, which can
  -- then only log it.
  unfoldable pub recovered :
      HttpRequest → Result (Response (Body B)) × Host S → Response (Body B) × Host S
  unfolding unhandled_exception_handler
  recovered request (ok r, host) = (r, host)
  recovered request (err e, host) = (
    json_response (unhandled_exception_handler (request_id host)),
    write (unhandled_line runtime exception_text request e) host,
  )

module _ {S B : Type 0} (runtime : Runtime S) (decimal_text : ℕ → String)
    (exception_text : Exception → String) where
  unfoldable pub serve :
      HttpRequest → Exec (Host S) (Routed B) → Host S → Response (Body B) × Host S
  unfolding handled recovered
  serve request route host =
      recovered runtime exception_text request
        (dispatch runtime request (λ h. handled decimal_text (route h)) host)
