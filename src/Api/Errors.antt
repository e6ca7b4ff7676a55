-- ===== src/Api/Errors.antt =====
-- The global exception handlers of payment-system/app/middleware/error_handler.py.
pub mod Codes
use Prim.Native.String.{◌++◌}
use payment_system.Base.{ℕ, String, Option, none, some, List, [], ◌∷◌, map, ◌==◌, if◌then◌else◌}
use payment_system.Core.Exceptions.{Exception, status_code, detail}

-- An entry of pydantic's `exc.errors()`: the location, as texts, and the message.
pub record ValidationError : Type 0 where
  pub loc : List String
  pub msg : String

pub record FieldError : Type 0 where
  pub field : String
  pub message : String

-- The JSON body; `errors` stands in it only after a failed validation.
pub record ErrorBody : Type 0 where
  pub error : String
  pub detail : String
  pub errors : Option (List FieldError)
  pub request_id : String

pub record JsonResponse : Type 0 where
  pub status_code : ℕ
  pub content : ErrorBody

-- `_status_to_error_code`
unfoldable pub status_to_error_code : ℕ → String
status_to_error_code status =
    if status == 400
    then "bad_request"
    else if status == 401
    then "unauthorized"
    else if status == 402
    then "insufficient_funds"
    else if status == 403
    then "forbidden"
    else if status == 404
    then "not_found"
    else if status == 409
    then "conflict"
    else if status == 422
    then "validation_error"
    else if status == 429
    then "rate_limited"
    else if status == 500
    then "internal_error"
    else "unknown_error"

unfoldable pub http_exception_handler : String → ℕ → String → JsonResponse
unfolding status_to_error_code
http_exception_handler request_id status text = record {
  status_code = status;
  content = record {
    error = status_to_error_code status;
    detail = text;
    errors = none;
    request_id = request_id;
  };
}

-- `" -> ".join(...)`
abbrev pub join_arrow : List String → String
join_arrow [] = ""
join_arrow (x ∷ []) = x
join_arrow (x ∷ y ∷ ys) = let rest = join_arrow (y ∷ ys) in x ++ " -> " ++ rest

abbrev pub field_error : ValidationError → FieldError
field_error e = record { field = join_arrow e.loc; message = e.msg }

unfoldable pub validation_exception_handler : String → List ValidationError → JsonResponse
validation_exception_handler request_id errors = record {
  status_code = 422;
  content = record {
    error = "validation_error";
    detail = "Request validation failed";
    errors = some (map field_error errors);
    request_id = request_id;
  };
}

unfoldable pub unhandled_exception_handler : String → JsonResponse
unhandled_exception_handler request_id = record {
  status_code = 500;
  content = record {
    error = "internal_error";
    detail = "An unexpected error occurred. Please try again.";
    errors = none;
    request_id = request_id;
  };
}

-- The handlers are registered by class: `HTTPException` and its subclasses go to the first, all other
-- exceptions to the last. `str` is Python's text of a Decimal.
abbrev by_status : String → String → Option ℕ → JsonResponse
by_status request_id text none = unhandled_exception_handler request_id
by_status request_id text (some status) = http_exception_handler request_id status text

unfoldable pub respond : (ℕ → String) → String → Exception → JsonResponse
unfolding status_code detail http_exception_handler unhandled_exception_handler
respond str request_id e = by_status request_id (detail str e) (status_code e)
