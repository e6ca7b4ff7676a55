-- ===== src/Tests/Tokens.antt =====
-- A token library that meets the laws: the expiry in unary digits, then the subject. And the theorem
-- on tokens at a concrete one.
use Prim.Native.Char.{Char, code}
use payment_system.Base.{
  ℕ, zero, suc, ◌+◌, ◌≡◌, ◌≤◌, ◌<◌, refl, ◌∙◌, String, true, Option, none, some, leb, ◌==◌,
  if◌then◌else◌, arith,
}
use payment_system.Base.Dict.{lookup}
use payment_system.Core.Exceptions.{http}
use payment_system.Core.Exec.{ok, err}
use payment_system.Core.Settings.{default_settings}
use payment_system.Core.Security.{
  Claim, time, Claims, text_of, Decoded, claims, jwt_error, seconds, Jwt, create_access_token,
}
use payment_system.Models.Wallet.{Uuid}
use payment_system.Api.Auth.{get_current_user_id}
use payment_system.Api.Auth.Tokens.{user_claims, get_current_user_id-create_access_token}

abbrev digit : Char
digit = "1"

abbrev point : Char
point = "."

abbrev subject_text : Option String → String
subject_text none = ""
subject_text (some s) = String.◌∷◌ point s

abbrev subject_of : String → Option String
subject_of String.[] = none
subject_of (String.◌∷◌ c s) = some s

abbrev written : ℕ → String → String
written zero s = String.◌∷◌ point s
written (suc n) s = String.◌∷◌ digit (written n s)

abbrev expiry_of : Option Claim → ℕ
expiry_of (some (time n)) = n
expiry_of _ = 0

abbrev until : ℕ → ℕ → String → Decoded
until now exp s = if leb (seconds now) (seconds exp) then claims (subject_of s) else jwt_error

abbrev read_token : ℕ → ℕ → String → Decoded
read_token now n String.[] = jwt_error
read_token now n (String.◌∷◌ c s) =
    if code c == b'1' then read_token now (suc n) s else until now n s

read_token-written :
    (now n exp : ℕ) (s : String) → read_token now n (written exp s) ≡ until now (n + exp) s
read_token-written now n zero s = ground arith
read_token-written now n (suc exp) s =
    let e : suc n + exp ≡ n + suc exp = omega arith in
    rw (← e) (read_token-written now (suc n) exp s)

subject_of-subject_text : (o : Option String) → subject_of (subject_text o) ≡ o
subject_of-subject_text none = refl
subject_of-subject_text (some s) = refl

abbrev unary_encode : Claims → String
unary_encode c = written (expiry_of (lookup "exp" c)) (subject_text (text_of (lookup "sub" c)))

unary_law :
    (c : Claims) (exp now : ℕ)
    → lookup "exp" c ≡ some (time exp)
    → read_token now 0 (unary_encode c)
      ≡ (if leb (seconds now) (seconds exp) then claims (text_of (lookup "sub" c)) else jwt_error)
unary_law c exp now e =
    rw (e, read_token-written now 0 exp (subject_text (text_of (lookup "sub" c))))
      (let z : 0 + exp ≡ exp = omega arith in rw (z, subject_of-subject_text) refl)

unary_valid :
    (c : Claims) (exp now : ℕ)
    → lookup "exp" c ≡ some (time exp)
    → seconds now ≤ seconds exp
    → read_token now 0 (unary_encode c) ≡ claims (text_of (lookup "sub" c))
unary_valid c exp now e valid = unary_law c exp now e ∙ ground arith

unary_expired :
    (c : Claims) (exp now : ℕ)
    → lookup "exp" c ≡ some (time exp)
    → seconds exp < seconds now
    → read_token now 0 (unary_encode c) ≡ jwt_error
unary_expired c exp now e expired = unary_law c exp now e ∙ ground arith

abbrev unary : Jwt
unary = record {
  is_supported = λ algorithm. true;
  encode = λ c key algorithm. unary_encode c;
  decode = λ token key algorithm now. read_token now 0 token;
  decode-encode = λ c key algorithm exp now s e valid. unary_valid c exp now e valid;
  decode-encode_expired = λ c key algorithm exp now s e expired. unary_expired c exp now e expired;
}

abbrev read_twelve : String → Option Uuid
read_twelve s = some 12

-- Thirty minutes after it was issued the token is still good.
get_current_user_id-create_access_token_example :
    get_current_user_id
      (λ token.
        unary.decode token default_settings.secret_key default_settings.algorithm 1800000000)
      read_twelve
      (create_access_token unary default_settings 0 (user_claims 12) none)
    ≡ (if leb (seconds 1800000000) (seconds (0 + 1800000000))
        then ok 12
        else err (http 401 "Invalid or expired token"))
get_current_user_id-create_access_token_example =
    get_current_user_id-create_access_token unary default_settings read_twelve 12 none 0 1800000000
      refl refl
