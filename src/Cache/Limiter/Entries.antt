-- ===== src/Cache/Limiter/Entries.antt =====
-- What the rate limit of payment-system/app/middleware/rate_limiter.py leaves of the cache, whatever
-- Redis does: the entries under all keys but its own.
use Prim.Native.Char.{code}
use Prim.Native.String.{◌++◌}
use text.Mathlib.TextLemmas.{cons-append}
use payment_system.Base.{
  ℕ, ◌≡◌, ◌≢◌, refl, sym, ap, ◌∙◌, inl, inr, String, Bool, true, false, Option, leb, ◌==◌,
  if◌then◌else◌, Bool-cases, arith,
}
use payment_system.Core.Exceptions.{http}
use payment_system.Core.Exec.{Result, ok, err, pure, raise, on_error, resume, ◌>>◌}
use payment_system.Core.Outcome.{Outcome, Returns}
use payment_system.Cache.Redis.{Texts, Redis, FadesBut}
use payment_system.Cache.Keys.{idempotency_cache_key, rate_limit_key, rate_limit_ttl}
use payment_system.Cache.Manager.{check_rate_limit}
use payment_system.Cache.Limiter.{Request, identifier, limit}

-- The two families of keys begin differently.
abbrev first_code : String → ℕ
first_code String.[] = 0
first_code (String.◌∷◌ c s) = code c

pub idempotency-ne-rate_limit :
    (key user endpoint : String) → idempotency_cache_key key ≢ rate_limit_key user endpoint
idempotency-ne-rate_limit key user endpoint e =
    let left : first_code (idempotency_cache_key key) ≡ b'i' =
      ap first_code (cons-append "i" "dempotency:" key) in
    let right : first_code (rate_limit_key user endpoint) ≡ b'r' =
      ap first_code (cons-append "r" "ate_limit:" (user ++ ":" ++ endpoint)) in
    let codes : ◌≡◌ {A = ℕ} b'i' b'r' = sym left ∙ (ap first_code e ∙ right) in absurd (omega arith)

FadesBut-trans :
    (k : String) (a b c : String → Option String) → FadesBut k a b → FadesBut k b c → FadesBut k a c
FadesBut-trans k a b c f g j h = elim (g j h) [
  | inl same ↦ elim (f j h) [ inl e ↦ inl (same ∙ e) | inr gone ↦ inr (same ∙ gone) ]
  | inr gone ↦ inr gone
]

module _ (texts : Texts) (redis : Redis) where
  open redis use {Server, entry, incr, expire}

  expired :
      (key : String) (max_requests n : ℕ) (s₁ : Server)
      → FadesBut key (entry s₁) (
          entry
            (on_error
              ((do
                (if n == 1 then expire key rate_limit_ttl else pure tt)
                pure (leb n max_requests))
                s₁)
              (λ _. pure true)).1)
  expired key max_requests n s₁ = elim (Bool-cases (n == 1)) [
    | inl one ↦
        rw one (after (expire key rate_limit_ttl s₁) (redis.expire_entries key rate_limit_ttl s₁))
    | inr more ↦ rw more (λ j h. inl refl)
  ]
    where
      after :
          (r : Result (Unit {0}) × Server)
          → FadesBut key (entry s₁) (entry r.1)
          → FadesBut key
              (entry s₁)
              (entry (on_error (resume r (λ _. pure (leb n max_requests))) (λ _. pure true)).1)
      after (ok u, s₂) f = f
      after (err e, s₂) f = f

  check_rate_limit-FadesBut :
      (user endpoint : String) (max_requests : ℕ) (s : Server)
      → FadesBut
          (rate_limit_key user endpoint)
          (entry s)
          (entry (check_rate_limit texts redis user endpoint max_requests s).1)
  unfolding check_rate_limit
  check_rate_limit-FadesBut user endpoint max_requests s =
      counted (incr key s) (redis.incr_entries key s)
    where
      key : String
      key = rate_limit_key user endpoint

      counted :
          (r : Result ℕ × Server)
          → FadesBut key (entry s) (entry r.1)
          → FadesBut key (entry s) (
              entry
                (on_error
                  (resume r (λ current.
                    (if current == 1 then expire key rate_limit_ttl else pure tt)
                    >> pure (leb current max_requests)))
                  (λ _. pure true)).1)
      counted (ok n, s₁) f =
          FadesBut-trans key (entry s) (entry s₁) _ f (expired key max_requests n s₁)
      counted (err e, s₁) f = f

  never :
      (user endpoint : String) (max_requests : ℕ) (s : Server)
      → Returns (λ _ _. Unit {0}) (check_rate_limit texts redis user endpoint max_requests s)
  unfolding check_rate_limit
  never user endpoint max_requests s = caught _
    where
      caught : (r : Result Bool × Server) → Returns (λ _ _. Unit {0}) (on_error r (λ _. pure true))
      caught (ok b, s₁) = tt
      caught (err e, s₁) = tt

  -- The dependency passes or refuses with a 429, and leaves the entries under other keys, which may
  -- run out.
  pub limit-FadesBut :
      (limit_detail : ℕ → String) (max_requests : ℕ) (request : Request) (s : Server)
      → Outcome
          (λ _ s'. FadesBut (rate_limit_key (identifier request) request.path) (entry s) (entry s'))
          (λ e s'.
            (e ≡ http 429 (limit_detail max_requests))
            × FadesBut (rate_limit_key (identifier request) request.path) (entry s) (entry s'))
          (limit texts redis limit_detail max_requests request s)
  unfolding limit
  limit-FadesBut limit_detail max_requests request s =
      judged (check_rate_limit texts redis (identifier request) request.path max_requests s)
        (never (identifier request) request.path max_requests s)
        (check_rate_limit-FadesBut (identifier request) request.path max_requests s)
    where
      key : String
      key = rate_limit_key (identifier request) request.path

      judged :
          (r : Result Bool × Server)
          → Returns (λ _ _. Unit {0}) r
          → FadesBut key (entry s) (entry r.1)
          → Outcome
              (λ _ s'. FadesBut key (entry s) (entry s'))
              (λ e s'.
                (e ≡ http 429 (limit_detail max_requests)) × FadesBut key (entry s) (entry s'))
              (resume r (λ allowed.
                if allowed then pure tt else raise (http 429 (limit_detail max_requests))))
      judged (ok true, s₁) t f = f
      judged (ok false, s₁) t f = (refl, f)
      judged (err e, s₁) t f = absurd t
