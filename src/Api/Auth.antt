-- ===== src/Api/Auth.antt =====
-- `get_current_user_id` of payment-system/app/middleware/auth.py. The token library and the parser of
-- UUIDs are parameters.
pub mod Tokens
use payment_system.Base.{◌≡◌, refl, String, ◌⊎◌, inl, inr, Option, none, some}
use payment_system.Core.Security.{Decoded, claims, jwt_error}
use payment_system.Core.Exceptions.{http, unexpected}
use payment_system.Core.Exec.{Result, ok, err}
use payment_system.Models.Wallet.{Uuid}

module _ (decode : String → Decoded) (parse_uuid : String → Option Uuid) where
  -- `UUID(user_id)`, which raises `ValueError` on a text that is no UUID.
  abbrev pub user_of : Option Uuid → Result Uuid
  user_of none = err (unexpected 4)
  user_of (some id) = ok id

  abbrev pub subject_of : Decoded → Result Uuid
  subject_of jwt_error = err (http 401 "Invalid or expired token")
  subject_of (claims none) = err (http 401 "Invalid token: missing subject")
  subject_of (claims (some user_id)) = user_of (parse_uuid user_id)

  unfoldable pub get_current_user_id : String → Result Uuid
  get_current_user_id token = subject_of (decode token)

  -- When a token is let in, and how the others are answered.
  abbrev pub Identifies : Decoded → Result Uuid → Type 0
  Identifies d (ok id) =
      (subject : String) × (d ≡ claims (some subject)) × (parse_uuid subject ≡ some id)
  Identifies d (err e) =
      ((d ≡ jwt_error) × (e ≡ http 401 "Invalid or expired token"))
      ⊎ ((d ≡ claims none) × (e ≡ http 401 "Invalid token: missing subject"))
      ⊎ ((subject : String) × (d ≡ claims (some subject))
          × (parse_uuid subject ≡ none)
          × (e ≡ unexpected 4))

  subject-Identifies : (d : Decoded) → Identifies d (subject_of d)
  subject-Identifies jwt_error = inl (refl, refl)
  subject-Identifies (claims none) = inr (inl (refl, refl))
  subject-Identifies (claims (some subject)) = parsed (parse_uuid subject) refl
    where
      parsed :
          (r : Option Uuid)
          → parse_uuid subject ≡ r
          → Identifies (claims (some subject)) (user_of r)
      parsed none e = inr (inr (subject, refl, e, refl))
      parsed (some id) e = (subject, refl, e)

  -- The branches of the dependency.
  pub get_current_user_id-Identifies :
      (token : String) → Identifies (decode token) (get_current_user_id token)
  unfolding get_current_user_id
  get_current_user_id-Identifies token = subject-Identifies (decode token)
