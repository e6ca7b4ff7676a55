-- ===== src/Cache/Redis.antt =====
-- The interface to redis.asyncio with what the program relies on. An entry may run out at any
-- moment, so each command leaves every other key as it was or empty. A command that raises may
-- have reached the server or not. Texts are those of Decimal, pydantic and json.
use payment_system.Base.{
  ℕ, suc, ◌≡◌, ◌≢◌, ◌⊎◌, String, Bool, true, Option, none, some, List, [], ◌∷◌,
}
use payment_system.Core.Exec.{Exec}
use payment_system.Core.Outcome.{IsUnexpected, Outcome}
use payment_system.Schemas.Payment.{TransactionResponse}

-- `str(balance)`, `Decimal(text)`, and the JSON of a stored response.
pub record Texts : Type 1 where
  pub decimal_text : ℕ → String
  pub parse_decimal : String → Option ℕ
  -- what `json.loads` returns
  pub Json : Type 0
  pub loads : String → Option Json
  pub is_truthy : Json → Bool
  -- `TransactionResponse(**cached["response"])`, which may raise
  pub response_of : Json → Option TransactionResponse
  -- `json.dumps(data, default=str)`
  pub dumps : Json → String
  -- `{"response": response_data, "status_code": status_code}`
  pub stored : TransactionResponse → ℕ → Json
  pub parse_decimal_text : (n : ℕ) → parse_decimal (decimal_text n) ≡ some n
  pub loads_dumps :
      (r : TransactionResponse) (status : ℕ)
      → loads (dumps (stored r status)) ≡ some (stored r status)
  pub is_truthy_stored : (r : TransactionResponse) (status : ℕ) → is_truthy (stored r status) ≡ true
  pub response_of_stored :
      (r : TransactionResponse) (status : ℕ) → response_of (stored r status) ≡ some r
  pub dumps_nonempty : (r : TransactionResponse) (status : ℕ) → dumps (stored r status) ≢ ""

-- Entries that stayed as they were or ran out.
abbrev pub Fades : (String → Option String) → (String → Option String) → Type 0
Fades before after = (j : String) → (after j ≡ before j) ⊎ (after j ≡ none)

-- The same where the text `v` may have been put under the key `k`.
abbrev pub Puts : String → String → (String → Option String) → (String → Option String) → Type 0
Puts k v before after =
    (j : String) → (after j ≡ before j) ⊎ ((after j ≡ none) ⊎ ((j ≡ k) × (after j ≡ some v)))

-- The same for all keys but one.
abbrev pub FadesBut : String → (String → Option String) → (String → Option String) → Type 0
FadesBut k before after = (j : String) → j ≢ k → (after j ≡ before j) ⊎ (after j ≡ none)

abbrev pub Cleared : List String → (String → Option String) → Type 0
Cleared [] after = Unit {0}
Cleared (k ∷ ks) after = (after k ≡ none) × Cleared ks after

pub record Redis : Type 1 where
  pub Server : Type 0
  pub entry : Server → String → Option String
  -- the seconds that the last EXPIRE or SETEX gave the key, if it has a time to live
  pub ttl : Server → String → Option ℕ
  -- the value of a counter, 0 where there is none
  pub counter : Server → String → ℕ
  pub get : String → Exec Server (Option String)
  pub setex : String → ℕ → String → Exec Server (Unit {0})
  pub delete : String → Exec Server (Unit {0})
  -- a pipeline of DEL commands, executed
  pub delete_all : List String → Exec Server (Unit {0})
  pub incr : String → Exec Server ℕ
  pub expire : String → ℕ → Exec Server (Unit {0})
  pub ping : Exec Server Bool
  pub get_law :
      (k : String) (s : Server)
      → Outcome
          (λ r s'. (r ≡ entry s' k) × Fades (entry s) (entry s'))
          (λ e s'. IsUnexpected e × Fades (entry s) (entry s'))
          (get k s)
  pub setex_law :
      (k : String) (seconds : ℕ) (v : String) (s : Server)
      → Outcome
          (λ _ s'.
            (entry s' k ≡ some v) × (ttl s' k ≡ some seconds) × Puts k v (entry s) (entry s'))
          (λ e s'. IsUnexpected e × Puts k v (entry s) (entry s'))
          (setex k seconds v s)
  pub delete_law :
      (k : String) (s : Server)
      → Outcome
          (λ _ s'. (entry s' k ≡ none) × Fades (entry s) (entry s'))
          (λ e s'. IsUnexpected e × Fades (entry s) (entry s'))
          (delete k s)
  pub delete_all_law :
      (ks : List String) (s : Server)
      → Outcome
          (λ _ s'. Cleared ks (entry s') × Fades (entry s) (entry s'))
          (λ e s'. IsUnexpected e × Fades (entry s) (entry s'))
          (delete_all ks s)
  -- INCR counts on, or begins again at 1 where the key had run out, and keeps the time to live.
  pub incr_law :
      (k : String) (s : Server)
      → Outcome
          (λ n s'.
            (counter s' k ≡ n)
            × (((n ≡ suc (counter s k)) × (ttl s' k ≡ ttl s k)) ⊎ ((n ≡ 1) × (ttl s' k ≡ none))))
          (λ e s'. IsUnexpected e)
          (incr k s)
  pub incr_entries : (k : String) (s : Server) → FadesBut k (entry s) (entry (incr k s).1)
  pub expire_entries :
      (k : String) (seconds : ℕ) (s : Server) → FadesBut k (entry s) (entry (expire k seconds s).1)
  -- Within the running window.
  pub expire_law :
      (k : String) (seconds : ℕ) (s : Server)
      → Outcome
          (λ _ s'. (counter s' k ≡ counter s k) × (ttl s' k ≡ some seconds))
          (λ e s'.
            IsUnexpected e
            × (counter s' k ≡ counter s k)
            × ((ttl s' k ≡ ttl s k) ⊎ (ttl s' k ≡ some seconds)))
          (expire k seconds s)
  pub ping_law : (s : Server) → Outcome (λ _ _. Unit {0}) (λ e _. IsUnexpected e) (ping s)
