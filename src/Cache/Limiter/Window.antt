-- ===== src/Cache/Limiter/Window.antt =====
-- The counting of `check_rate_limit` in payment-system/app/services/cache_manager.py, and the
-- dependency over it in payment-system/app/middleware/rate_limiter.py.
use payment_system.Base.{
  ℕ, suc, ◌≡◌, ◌<◌, ◌≤◌, refl, sym, ap, ◌∙◌, String, ◌⊎◌, inl, inr, Bool, true, false, some, none,
  ◌==◌, leb, Bool-cases, arith, if◌then◌else◌,
}
use payment_system.Core.Exceptions.{Exception, http}
use payment_system.Core.Exec.{pure, raise}
use payment_system.Core.Outcome.{
  Outcome, Returns, Outcome-catch, Outcome-both, Returns-weaken, Returns-bind,
}
use payment_system.Cache.Redis.{Texts, Redis}
use payment_system.Cache.Steady.{IsSteady}
use payment_system.Cache.Keys.{rate_limit_key, rate_limit_ttl}
use payment_system.Cache.Manager.{check_rate_limit}
use payment_system.Cache.Limiter.{Request, identifier, limit}

module _ (texts : Texts) (redis : Redis) (steady : IsSteady redis) where
  open redis use {Server, ttl, counter}

  -- The request was counted: it is the next of its window, or the first of a new one. The window of a
  -- first request ends after `rate_limit_ttl` seconds, and that of a later one when it would have.
  pub record Counted (key : String) (s s' : Server) : Type 0 where
    pub first : counter s' key ≡ 1 → ttl s' key ≡ some rate_limit_ttl
    pub later :
        (counter s' key ≡ 1) ⊎ ((counter s' key ≡ suc (counter s key)) × (ttl s' key ≡ ttl s key))

  -- The request was counted, and is allowed if and only if its number is at most the maximum.
  abbrev pub Judged : String → ℕ → Server → Bool → Server → Type 0
  Judged key max_requests s allowed s' =
      Counted key s s' × (allowed ≡ leb (counter s' key) max_requests)

  expire_first_law :
      (key : String) (n : ℕ) (s s₁ : Server)
      → counter s₁ key ≡ n
      → ((n ≡ suc (counter s key)) × (ttl s₁ key ≡ ttl s key)) ⊎ ((n ≡ 1) × (ttl s₁ key ≡ none))
      → Returns
          (λ _ s'. Counted key s s' × (counter s' key ≡ n))
          ((if n == 1 then redis.expire key rate_limit_ttl else pure tt) s₁)
  expire_first_law key n s s₁ e h = elim (Bool-cases (n == 1)) [
    | inl one ↦ rw one (
        Returns-weaken
          (λ _ s'. (counter s' key ≡ counter s₁ key) × (ttl s' key ≡ some rate_limit_ttl))
          (λ _ s'. Counted key s s' × (counter s' key ≡ n)) (λ _ _. ⊥)
          (redis.expire key rate_limit_ttl s₁)
          (Outcome-both _ _ _ (redis.expire key rate_limit_ttl s₁)
            (redis.expire_law key rate_limit_ttl s₁) (steady.expires key rate_limit_ttl s₁))
          (λ _ s' x. (record { first = λ _. x.1; later = inl (ground (arith, x.0)) }, x.0 ∙ e)))
    | inr more ↦ rw more (
      record {
        first = λ f. absurd (ground arith);
        later = elim h [ inl k ↦ inr (e ∙ k.0, k.1) | inr k ↦ absurd (ground (arith, k.0)) ];
      },
      e,
    )
  ]

  -- On a server where no command fails, `check_rate_limit` returns and has counted the request, and
  -- allows it if and only if its number in the window is at most the maximum. Counting the first
  -- request of a window gives the counter its time to live, and counting a later one leaves it.
  pub check_rate_limit-Judged :
      (user endpoint : String) (max_requests : ℕ) (s : Server)
      → Returns
          (Judged (rate_limit_key user endpoint) max_requests s)
          (check_rate_limit texts redis user endpoint max_requests s)
  unfolding check_rate_limit
  check_rate_limit-Judged user endpoint max_requests s =
      let key = rate_limit_key user endpoint in
      Outcome-catch (Judged key max_requests s) _ (λ _ _. ⊥) _ _ _
        (Returns-bind
          (λ n s₁.
            (counter s₁ key ≡ n)
            × (((n ≡ suc (counter s key)) × (ttl s₁ key ≡ ttl s key))
                ⊎ ((n ≡ 1) × (ttl s₁ key ≡ none))))
          (Judged key max_requests s) (λ _ _. ⊥) (redis.incr key s) _
          (Outcome-both _ _ _ (redis.incr key s) (redis.incr_law key s) (steady.incrs key s))
          (λ n s₁ h.
            Returns-bind (λ _ s'. Counted key s s' × (counter s' key ≡ n))
              (Judged key max_requests s) (λ _ _. ⊥) _ _ (expire_first_law key n s s₁ h.0 h.1)
              (λ _ s₂ c. (c.0, ap (λ k. leb k max_requests) (sym c.1)))))
        (λ _ _ h. h) (λ _ _ x. absurd x)

  -- A refused request was counted above the maximum, and the refusal is a 429.
  abbrev pub Refused : String → ℕ → (ℕ → String) → Server → Exception → Server → Type 0
  Refused key max_requests limit_detail s e s' =
      (e ≡ http 429 (limit_detail max_requests))
      × (max_requests < counter s' key)
      × Counted key s s'

  abbrev pub Passed : String → ℕ → Server → Server → Type 0
  Passed key max_requests s s' = Counted key s s' × (counter s' key ≤ max_requests)

  -- On a server where no command fails, the dependency counts the request in the window of its client
  -- and path, lets it pass if its number there is at most the maximum, and otherwise refuses it with a
  -- 429.
  pub limit-Refused :
      (limit_detail : ℕ → String) (max_requests : ℕ) (request : Request) (s : Server)
      → Outcome
          (λ _ s'. Passed (rate_limit_key (identifier request) request.path) max_requests s s')
          (Refused (rate_limit_key (identifier request) request.path) max_requests limit_detail s)
          (limit texts redis limit_detail max_requests request s)
  unfolding limit
  limit-Refused limit_detail max_requests request s =
      Returns-bind _ _ _
        (check_rate_limit texts redis (identifier request) request.path max_requests s) _
        (check_rate_limit-Judged (identifier request) request.path max_requests s) decided
    where
      key : String
      key = rate_limit_key (identifier request) request.path

      decided :
          (allowed : Bool) (s' : Server)
          → Judged key max_requests s allowed s'
          → Outcome
              (λ _ s'. Passed key max_requests s s')
              (Refused key max_requests limit_detail s)
              ((if allowed then pure tt else raise (http 429 (limit_detail max_requests))) s')
      decided true s' (c, e) = (c, ground (arith, e))
      decided false s' (c, e) = (refl, ground (arith, e), c)
