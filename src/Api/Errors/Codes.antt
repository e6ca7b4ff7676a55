-- ===== src/Api/Errors/Codes.antt =====
-- The status and the code that a client sees for each exception, through
-- payment-system/app/middleware/error_handler.py.
use payment_system.Base.{ℕ, ◌≡◌, refl, String, none}
use payment_system.Core.Exceptions.{
  Exception, user_not_found, user_already_exists, wallet_not_found, insufficient_balance,
  duplicate_transaction, self_transfer, optimistic_lock, http, integrity_error, unexpected,
}
use payment_system.Api.Errors.{JsonResponse, respond}

abbrev Sends : ℕ → String → String → JsonResponse → Type 0
Sends status code request_id r =
    (r.status_code ≡ status) × (r.content.error ≡ code) × (r.content.request_id ≡ request_id)

abbrev opaque_error : String → JsonResponse
opaque_error request_id = record {
  status_code = 500;
  content = record {
    error = "internal_error";
    detail = "An unexpected error occurred. Please try again.";
    errors = none;
    request_id = request_id;
  };
}

-- The documented answer to each of the program's own exceptions, and to a library's.
abbrev pub Answers : Exception → String → JsonResponse → Type 0
Answers (user_not_found id) request_id r = Sends 404 "not_found" request_id r
Answers (user_already_exists email) request_id r = Sends 409 "conflict" request_id r
Answers wallet_not_found request_id r = Sends 404 "not_found" request_id r
Answers (insufficient_balance available required) request_id r =
    Sends 402 "insufficient_funds" request_id r
Answers duplicate_transaction request_id r = Sends 409 "conflict" request_id r
Answers self_transfer request_id r = Sends 400 "bad_request" request_id r
Answers optimistic_lock request_id r = Sends 409 "conflict" request_id r
Answers (http status text) request_id r =
    (r.status_code ≡ status) × (r.content.detail ≡ text) × (r.content.request_id ≡ request_id)
Answers integrity_error request_id r = r ≡ opaque_error request_id
Answers (unexpected class) request_id r = r ≡ opaque_error request_id

-- Each exception of the program's own reaches the client with its status, the code of that status and
-- the request's id, a plain HTTPException with its status and detail, and any other exception as one
-- and the same 500, which tells nothing of it.
pub respond-Answers :
    (str : ℕ → String) (request_id : String) (e : Exception)
    → Answers e request_id (respond str request_id e)
unfolding respond
respond-Answers str request_id (user_not_found id) = (refl, refl, refl)
respond-Answers str request_id (user_already_exists email) = (refl, refl, refl)
respond-Answers str request_id wallet_not_found = (refl, refl, refl)
respond-Answers str request_id (insufficient_balance available required) = (refl, refl, refl)
respond-Answers str request_id duplicate_transaction = (refl, refl, refl)
respond-Answers str request_id self_transfer = (refl, refl, refl)
respond-Answers str request_id optimistic_lock = (refl, refl, refl)
respond-Answers str request_id (http status text) = (refl, refl, refl)
respond-Answers str request_id integrity_error = refl
respond-Answers str request_id (unexpected class) = refl
