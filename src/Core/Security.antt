-- ===== src/Core/Security.antt =====
-- Tokens: `create_access_token` of payment-system/app/core/security.py over jose's `jwt`.
use payment_system.Base.{
  ℕ, zero, suc, ◌+◌, ◌*◌, ◌/◌, ◌≤◌, ◌<◌, ◌≡◌, String, Bool, true, Option, none, some, List,
}
use payment_system.Base.Dict.{lookup, update}
use payment_system.Core.Settings.{Settings}

-- The values of a token's payload; a `datetime` is a number of microseconds.
pub data Claim : Type 0 where
  text : String → Claim
  time : ℕ → Claim

abbrev pub Claims : Type 0
Claims = List (String × Claim)

abbrev pub text_of : Option Claim → Option String
text_of (some (text s)) = some s
text_of _ = none

-- What `jwt.decode` does with a token: the payload's `sub`, if it has one, or a `JWTError`.
pub data Decoded : Type 0 where
  claims : Option String → Decoded
  jwt_error : Decoded

-- A moment in whole seconds, as jose compares them.
abbrev pub seconds : ℕ → ℕ
seconds t = t / 1000000

-- jose: a token that was signed with the key is read back with it until its `exp` has passed.
pub record Jwt : Type 0 where
  pub is_supported : String → Bool
  pub encode : Claims → String → String → String
  -- the token, the key, the algorithm, and the moment
  pub decode : String → String → String → ℕ → Decoded
  pub decode-encode :
      (c : Claims) (key algorithm : String) (exp now : ℕ)
      → is_supported algorithm ≡ true
      → lookup "exp" c ≡ some (time exp)
      → seconds now ≤ seconds exp
      → decode (encode c key algorithm) key algorithm now ≡ claims (text_of (lookup "sub" c))
  pub decode-encode_expired :
      (c : Claims) (key algorithm : String) (exp now : ℕ)
      → is_supported algorithm ≡ true
      → lookup "exp" c ≡ some (time exp)
      → seconds exp < seconds now
      → decode (encode c key algorithm) key algorithm now ≡ jwt_error

-- `expires_delta or timedelta(minutes=settings.access_token_expire_minutes)`: an empty `timedelta`
-- counts as none.
abbrev pub lifetime : Settings → Option ℕ → ℕ
lifetime settings none = settings.access_token_expire_minutes * 60000000
lifetime settings (some zero) = settings.access_token_expire_minutes * 60000000
lifetime settings (some (suc delta)) = suc delta

-- `issued` is `datetime.now(timezone.utc)`.
unfoldable pub create_access_token : Jwt → Settings → ℕ → Claims → Option ℕ → String
create_access_token jwt settings issued claims' expires_delta =
    jwt.encode (update "exp" (time (issued + lifetime settings expires_delta)) claims')
      settings.secret_key settings.algorithm
