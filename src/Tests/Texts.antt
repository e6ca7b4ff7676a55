-- ===== src/Tests/Texts.antt =====
-- Texts that can be read back, in place of those of Decimal and json: a concrete `Texts`.
use Prim.Native.Char.{Char, code}
use payment_system.Base.{
  ℕ, zero, suc, ◌≡◌, ◌≢◌, refl, subst, String, Option, none, some, is_some, ◌==◌, if◌then◌else◌,
}
use payment_system.Schemas.Payment.{TransactionResponse}
use payment_system.Cache.Redis.{Texts}

-- An `m` says that one more item follows, an `s` that none does.
abbrev pub put_nat : ℕ → String → String
put_nat zero rest = String.◌∷◌ "s" rest
put_nat (suc n) rest = String.◌∷◌ "m" (put_nat n rest)

abbrev pub bump : Option (ℕ × String) → Option (ℕ × String)
bump none = none
bump (some (n, rest)) = some (suc n, rest)

abbrev pub get_nat : String → Option (ℕ × String)
get_nat String.[] = none
get_nat (String.◌∷◌ c rest) =
    let tail = get_nat rest in if code c == b's' then some (0, rest) else bump tail

abbrev pub Nonempty : String → Type 0
Nonempty String.[] = ⊥
Nonempty (String.◌∷◌ c rest) = Unit {0}

pub put_nat_nonempty : (n : ℕ) (rest : String) → put_nat n rest ≢ ""
put_nat_nonempty zero rest e = subst Nonempty e tt
put_nat_nonempty (suc n) rest e = subst Nonempty e tt

pub get_nat-put_nat : (n : ℕ) (rest : String) → get_nat (put_nat n rest) ≡ some (n, rest)
get_nat-put_nat zero rest = refl
get_nat-put_nat (suc n) rest = rw (get_nat-put_nat n rest) refl

abbrev pub put_string : String → String → String
put_string String.[] rest = String.◌∷◌ "s" rest
put_string (String.◌∷◌ c s) rest = String.◌∷◌ "m" (String.◌∷◌ c (put_string s rest))

abbrev pub prepend : Char → Option (String × String) → Option (String × String)
prepend c none = none
prepend c (some (s, rest)) = some (String.◌∷◌ c s, rest)

abbrev pub get_string : String → Option (String × String)
get_string String.[] = none
get_string (String.◌∷◌ m String.[]) = if code m == b's' then some (String.[], String.[]) else none
get_string (String.◌∷◌ m (String.◌∷◌ c rest)) =
    let tail = get_string rest in
    if code m == b's' then some (String.[], String.◌∷◌ c rest) else prepend c tail

pub get_string-put_string : (s rest : String) → get_string (put_string s rest) ≡ some (s, rest)
get_string-put_string String.[] String.[] = refl
get_string-put_string String.[] (String.◌∷◌ c rest) = refl
get_string-put_string (String.◌∷◌ c s) rest = rw (get_string-put_string s rest) refl

abbrev pub put_option : Option String → String → String
put_option none rest = String.◌∷◌ "s" rest
put_option (some s) rest = String.◌∷◌ "m" (put_string s rest)

abbrev pub given : Option (String × String) → Option (Option String × String)
given none = none
given (some (s, rest)) = some (some s, rest)

abbrev pub get_option : String → Option (Option String × String)
get_option String.[] = none
get_option (String.◌∷◌ m rest) =
    if code m == b's' then some (none, rest) else given (get_string rest)

pub get_option-put_option :
    (o : Option String) (rest : String) → get_option (put_option o rest) ≡ some (o, rest)
get_option-put_option none rest = refl
get_option-put_option (some s) rest = rw (get_string-put_string s rest) refl

abbrev pub put_response : TransactionResponse → ℕ → String
put_response r status = put_nat r.id (
    put_nat r.sender_wallet_id (
      put_nat r.receiver_wallet_id (
        put_nat r.amount (
          put_nat r.created_at (
            put_string r.currency (
              put_string r.status
                (put_string r.idempotency_key (put_option r.description (put_nat status "")))))))))

infixl 5 ◌>>=◌
abbrev ◌>>=◌ : {A B : Type 0} → Option A → (A → Option B) → Option B
none >>= f = none
some a >>= f = f a

abbrev pub get_response : String → Option TransactionResponse
get_response text = do
  (id, t₁) ← get_nat text
  (sender_wallet_id, t₂) ← get_nat t₁
  (receiver_wallet_id, t₃) ← get_nat t₂
  (amount, t₄) ← get_nat t₃
  (created_at, t₅) ← get_nat t₄
  (currency, t₆) ← get_string t₅
  (status, t₇) ← get_string t₆
  (idempotency_key, t₈) ← get_string t₇
  (description, t₉) ← get_option t₈
  some (record {
    id = id;
    sender_wallet_id = sender_wallet_id;
    receiver_wallet_id = receiver_wallet_id;
    amount = amount;
    currency = currency;
    status = status;
    idempotency_key = idempotency_key;
    description = description;
    created_at = created_at;
  })

pub get_response-put_response :
    (r : TransactionResponse) (status : ℕ) → get_response (put_response r status) ≡ some r
get_response-put_response r status =
    simp (get_nat-put_nat, get_string-put_string, get_option-put_option)

abbrev pub first : Option (ℕ × String) → Option ℕ
first none = none
first (some (n, rest)) = some n

abbrev pub loaded : Option TransactionResponse → Option (Option TransactionResponse)
loaded none = none
loaded (some r) = some (some r)

abbrev pub dump : Option TransactionResponse → String
dump none = ""
dump (some r) = put_response r 201

abbrev pub marks : Texts
marks = record {
  decimal_text = λ n. put_nat n "";
  parse_decimal = λ text. first (get_nat text);
  dumps = dump;
  Json = Option TransactionResponse;
  loads = λ text. loaded (get_response text);
  is_truthy = is_some;
  response_of = λ j. j;
  stored = λ r status. some r;
  parse_decimal_text = λ n. rw (get_nat-put_nat n "") refl;
  loads_dumps = λ r status. rw (get_response-put_response r 201) refl;
  is_truthy_stored = λ r status. refl;
  response_of_stored = λ r status. refl;
  dumps_nonempty = λ r status. put_nat_nonempty r.id _;
}
