-- ===== src/Core/Exceptions.antt =====
-- The exceptions of payment-system/app/core/exceptions.py, each with its HTTP status and detail.
-- What a library raises is `integrity_error` (SQLAlchemy's `IntegrityError`), `http` (a plain
-- `HTTPException` with a status and a detail) or `unexpected` (any other class, by a number).
use Prim.Native.String.{◌++◌}
use payment_system.Base.{ℕ, String, ◌||◌, Option, none, some, str_eq, if◌then◌else◌}

-- A Decimal amount of money is carried in cents.
pub data Exception : Type 0 where
  user_not_found : String → Exception
  user_already_exists : String → Exception
  wallet_not_found : Exception
  insufficient_balance : ℕ → ℕ → Exception
  duplicate_transaction : Exception
  self_transfer : Exception
  optimistic_lock : Exception
  http : ℕ → String → Exception
  integrity_error : Exception
  unexpected : ℕ → Exception

-- The `status_code` of an `HTTPException`; the other classes have none.
unfoldable pub status_code : Exception → Option ℕ
status_code (user_not_found user_id) = some 404
status_code (user_already_exists email) = some 409
status_code wallet_not_found = some 404
status_code (insufficient_balance available required) = some 402
status_code duplicate_transaction = some 409
status_code self_transfer = some 400
status_code optimistic_lock = some 409
status_code (http status text) = some status
status_code integrity_error = none
status_code (unexpected class) = none

-- The `detail` text; `str` is Python's text of a Decimal.
unfoldable pub detail : (ℕ → String) → Exception → String
detail str (user_not_found user_id) =
    if str_eq user_id "" then "User not found" else "User not found: " ++ user_id
detail str (user_already_exists email) = "User with email '" ++ email ++ "' already exists"
detail str wallet_not_found = "Wallet not found for this user"
detail str (insufficient_balance available required) =
    if str_eq (str available) "" || str_eq (str required) ""
    then "Insufficient balance"
    else "Insufficient balance: available=" ++ str available ++ ", required=" ++ str required
detail str duplicate_transaction =
    "Duplicate transaction — this idempotency key has already been processed"
detail str self_transfer = "Cannot transfer money to yourself"
detail str optimistic_lock = "Concurrent modification detected — please retry"
detail str (http status text) = text
detail str integrity_error = ""
detail str (unexpected class) = ""
