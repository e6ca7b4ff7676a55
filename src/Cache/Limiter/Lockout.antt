-- ===== src/Cache/Limiter/Lockout.antt =====
-- The rate limit of payment-system/app/middleware/rate_limiter.py on a counter without a time to live,
-- which a failed EXPIRE in `check_rate_limit` of payment-system/app/services/cache_manager.py leaves.
use payment_system.Base.{
  ℕ, zero, suc, ◌≡◌, ◌≤◌, ◌⊎◌, refl, sym, ap, ◌∙◌, String, inl, inr, Bool, true, false, none, subst,
  List, [], ◌∷◌, ◌==◌, leb, Bool-cases, arith, if◌then◌else◌,
}
use payment_system.Core.Exceptions.{http}
use payment_system.Core.Exec.{Result, ok, err, pure, resume, ◌>>◌, raise}
use payment_system.Core.Outcome.{IsUnexpected, Outcome, Returns, Outcome-catch, Returns-bind}
use payment_system.Cache.Redis.{Texts, Redis}
use payment_system.Cache.Keys.{rate_limit_key, rate_limit_ttl}
use payment_system.Cache.Manager.{check_rate_limit}
use payment_system.Cache.Limiter.{Request, identifier, limit}

-- A server where INCR does not fail, and a counter without a time to live does not run out.
pub record IsLasting (redis : Redis) : Type 0 where
  pub counts :
      (k : String) (s : redis.Server)
      → redis.ttl s k ≡ none
      → 1 ≤ redis.counter s k
      → Returns (λ n _. n ≡ suc (redis.counter s k)) (redis.incr k s)

module _ (texts : Texts) (redis : Redis) where
  open redis use {Server, ttl, counter}

  -- The counter stands at `c` and has no time to live.
  pub record Stuck (key : String) (c : ℕ) (s : Server) : Type 0 where
    pub counted : counter s key ≡ c
    pub endless : ttl s key ≡ none

  module _ (limit_detail : ℕ → String) (max_requests : ℕ) (request : Request) where
    -- The answers to `n` requests of one client for one path, one after another.
    abbrev pub answers : ℕ → Server → List (Result (Unit {0}))
    answers zero s = []
    answers (suc n) s =
        let r = limit texts redis limit_detail max_requests request s in r.0 ∷ answers n r.1

    -- The `c`-th request of a window passes up to the maximum.
    abbrev pub ruling : ℕ → Result (Unit {0})
    ruling c = if leb c max_requests then ok tt else err (http 429 (limit_detail max_requests))

    -- The rulings for `n` requests from the `c`-th on.
    abbrev pub rulings : ℕ → ℕ → List (Result (Unit {0}))
    rulings c zero = []
    rulings c (suc n) = ruling c ∷ rulings (suc c) n

  module _ (lasting : IsLasting redis) where
    incr-Stuck :
        (key : String) (c : ℕ) (s : Server)
        → Stuck key (suc c) s
        → Returns (λ n s₁. (n ≡ suc (suc c)) × Stuck key n s₁) (redis.incr key s)
    incr-Stuck key c s k =
        counted_on (redis.incr key s) (redis.incr_law key s)
          (lasting.counts key s k.endless (omega (arith, k.counted)))
      where
        counted_on :
            (r : Result ℕ × Server)
            → Outcome
                (λ n s'.
                  (counter s' key ≡ n)
                  × (((n ≡ suc (counter s key)) × (ttl s' key ≡ ttl s key))
                      ⊎ ((n ≡ 1) × (ttl s' key ≡ none))))
                (λ e _. IsUnexpected e)
                r
            → Returns (λ n _. n ≡ suc (counter s key)) r
            → Returns (λ n s₁. (n ≡ suc (suc c)) × Stuck key n s₁) r
        counted_on (ok n, s₁) h e = (
          e ∙ ap suc k.counted,
          record {
            counted = h.0;
            endless = elim h.1 [ inl kept ↦ kept.1 ∙ k.endless | inr first ↦ first.1 ];
          },
        )
        counted_on (err x, s₁) h e = absurd e

    -- No request of a counter that stands at 1 or more sets a time to live.
    check_rate_limit-Stuck :
        (user endpoint : String) (max_requests c : ℕ) (s : Server)
        → Stuck (rate_limit_key user endpoint) (suc c) s
        → Returns
            (λ allowed s₁.
              (allowed ≡ leb (suc (suc c)) max_requests)
              × Stuck (rate_limit_key user endpoint) (suc (suc c)) s₁)
            (check_rate_limit texts redis user endpoint max_requests s)
    unfolding check_rate_limit
    check_rate_limit-Stuck user endpoint max_requests c s k =
        Outcome-catch Kept Kept (λ _ _. ⊥) (λ _ _. ⊥) _ _
          (Returns-bind (λ n s₁. (n ≡ suc (suc c)) × Stuck key n s₁) Kept (λ _ _. ⊥)
            (redis.incr key s) _ (incr-Stuck key c s k) (λ n s₁ h. judged n s₁ h.0 h.1))
          (λ _ _ h. h) (λ _ _ x. absurd x)
      where
        key : String
        key = rate_limit_key user endpoint

        Kept : Bool → Server → Type 0
        Kept allowed s₁ = (allowed ≡ leb (suc (suc c)) max_requests) × Stuck key (suc (suc c)) s₁

        judged :
            (n : ℕ) (s₁ : Server)
            → n ≡ suc (suc c)
            → Stuck key n s₁
            → Returns Kept (
                ((if n == 1 then redis.expire key rate_limit_ttl else pure tt)
                    >> pure (leb n max_requests))
                  s₁)
        judged n s₁ e stuck = elim (Bool-cases (n == 1)) [
          | inl one ↦ absurd (ground (arith, e))
          | inr more ↦ rw more (ap (λ m. leb m max_requests) e, subst (λ m. Stuck key m s₁) e stuck)
        ]

    module _ (limit_detail : ℕ → String) (max_requests : ℕ) (request : Request) where
      abbrev key : String
      key = rate_limit_key (identifier request) request.path

      abbrev Answered : ℕ → Result (Unit {0}) × Server → Type 0
      Answered c r =
          (r.0 ≡ ruling limit_detail max_requests request (suc (suc c)))
          × Stuck key (suc (suc c)) r.1

      limit-Stuck :
          (c : ℕ) (s : Server)
          → Stuck key (suc c) s
          → Answered c (limit texts redis limit_detail max_requests request s)
      unfolding limit
      limit-Stuck c s k =
          decided (check_rate_limit texts redis (identifier request) request.path max_requests s)
            (check_rate_limit-Stuck (identifier request) request.path max_requests c s k)
        where
          decided :
              (r : Result Bool × Server)
              → Returns
                  (λ allowed s₁.
                    (allowed ≡ leb (suc (suc c)) max_requests) × Stuck key (suc (suc c)) s₁)
                  r
              → Answered c (
                  resume r (λ allowed.
                    if allowed then pure tt else raise (http 429 (limit_detail max_requests))))
          decided (ok true, s₁) h = (rw (sym h.0) refl, h.1)
          decided (ok false, s₁) h = (rw (sym h.0) refl, h.1)
          decided (err e, s₁) h = absurd h

      -- Where a counter of the rate limit stands at 1 or more and has no time to live, as a failed
      -- EXPIRE leaves it, and INCR does not fail and forgets no such counter: of the further requests
      -- of the client for the path the next pass as long as the count is at most the maximum, and all
      -- others are refused with a 429, however many and however late.
      pub limit_locks_out :
          (n c : ℕ) (s : Server)
          → Stuck key (suc c) s
          → answers limit_detail max_requests request n s
            ≡ rulings limit_detail max_requests request (suc (suc c)) n
      limit_locks_out zero c s k = refl
      limit_locks_out (suc n) c s k =
          let h = limit-Stuck c s k in λ i. h.0 i ∷ limit_locks_out n (suc c) _ h.1 i
