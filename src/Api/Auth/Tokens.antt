-- ===== src/Api/Auth/Tokens.antt =====
-- The tokens of payment-system/app/core/security.py as `get_current_user_id` of
-- payment-system/app/middleware/auth.py reads them.
use payment_system.Base.{
  ℕ, ◌+◌, ◌≡◌, refl, String, true, Option, some, [], ◌∷◌, leb, if◌then◌else◌, Bool-cases, inl, inr,
  arith,
}
use payment_system.Core.Exceptions.{http}
use payment_system.Core.Exec.{ok, err}
use payment_system.Core.Settings.{Settings}
use payment_system.Core.Security.{Claims, text, seconds, Jwt, lifetime, create_access_token}
use payment_system.Models.Wallet.{Uuid}
use payment_system.Cache.Keys.{uuid_text}
use payment_system.Api.Auth.{get_current_user_id}

-- `{"sub": str(user.id)}`, as the login makes it.
abbrev pub user_claims : Uuid → Claims
user_claims id = ("sub", text (uuid_text id)) ∷ []

-- A token for a user identifies that user until its lifetime has passed, in whole seconds; from then
-- on it is answered by a 401. The algorithm is one that jose supports, and the parser of UUIDs reads
-- the text of the user's id back.
pub get_current_user_id-create_access_token :
    (jwt : Jwt) (settings : Settings) (parse_uuid : String → Option Uuid) (id : Uuid)
    (expires_delta : Option ℕ) (issued now : ℕ)
    → jwt.is_supported settings.algorithm ≡ true
    → parse_uuid (uuid_text id) ≡ some id
    → get_current_user_id
        (λ token. jwt.decode token settings.secret_key settings.algorithm now)
        parse_uuid
        (create_access_token jwt settings issued (user_claims id) expires_delta)
      ≡ (if leb (seconds now) (seconds (issued + lifetime settings expires_delta))
          then ok id
          else err (http 401 "Invalid or expired token"))
unfolding get_current_user_id create_access_token
get_current_user_id-create_access_token jwt settings parse_uuid id expires_delta issued now
      supported readable =
    let exp = issued + lifetime settings expires_delta in
    elim (Bool-cases (leb (seconds now) (seconds exp))) [
      | inl valid ↦ rw (
        valid,
        jwt.decode-encode _ settings.secret_key settings.algorithm exp now supported refl
            (ground arith),
        readable,
      )
      | inr expired ↦ rw (
        expired,
        jwt.decode-encode_expired _ settings.secret_key settings.algorithm exp now supported refl
            (ground arith),
      )
    ]
