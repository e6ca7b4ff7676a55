-- ===== src/Cache/Manager/Safety.antt =====
-- What the callers of `RedisCacheManager` of payment-system/app/services/cache_manager.py may rely
-- on whatever Redis does.
use payment_system.Base.{
  ℕ, ◌≡◌, refl, ◌∙◌, String, ◌⊎◌, inl, inr, Option, none, some, List, ap, sym, subst,
}
use payment_system.Core.Exec.{Exec, Result, ok, err, on_error, pure, or_raise, ◌>>=◌, ◌>>◌}
use payment_system.Core.Exceptions.{unexpected}
use payment_system.Core.Outcome.{
  Outcome, Returns, Outcome-catch, Outcome-bind, Returns-bind, Outcome-weaken,
}
use payment_system.Models.Wallet.{Uuid}
use payment_system.Cache.Redis.{Texts, Redis, Fades, Puts}
use payment_system.Cache.Keys.{balance_key}
use payment_system.Cache.Manager.{
  decode_balance, get_balance, set_balance, invalidate_balance, invalidate_balances_pipeline,
  invalidate_wallet_info, check_rate_limit, is_healthy, get_wallet_info, set_wallet_info,
  get_idempotency, set_idempotency,
}

module _ {S A : Type 0} where
  -- A call whose exceptions are all answered by one value.
  caught : (r : Result A × S) (a : A) → Returns (λ _ _. Unit {0}) (on_error r (λ _. pure a))
  caught (ok x, s) a = tt
  caught (err e, s) a = tt

module _ (texts : Texts) (redis : Redis) where
  open redis use {Server, entry}
  open texts use {decimal_text, parse_decimal}

  abbrev pub NeverRaises : {A : Type 0} → Exec Server A → Type 0
  NeverRaises m = (s : Server) → Returns (λ _ _. Unit {0}) (m s)

  -- No method of the cache manager raises, whatever Redis does and whatever text an entry holds.
  pub cache_manager-NeverRaises :
      (wallet_id : Uuid) (wallet_ids : List Uuid) (balance max_requests : ℕ)
      (user endpoint key : String) (json : texts.Json)
      → NeverRaises (get_balance texts redis wallet_id)
        × NeverRaises (set_balance texts redis wallet_id balance)
        × NeverRaises (invalidate_balance texts redis wallet_id)
        × NeverRaises (invalidate_balances_pipeline texts redis wallet_ids)
        × NeverRaises (invalidate_wallet_info texts redis wallet_id)
        × NeverRaises (check_rate_limit texts redis user endpoint max_requests)
        × NeverRaises (is_healthy texts redis)
        × NeverRaises (get_wallet_info texts redis wallet_id)
        × NeverRaises (set_wallet_info texts redis wallet_id json)
        × NeverRaises (get_idempotency texts redis key)
        × NeverRaises (set_idempotency texts redis key json)
  unfolding get_balance set_balance invalidate_balance invalidate_balances_pipeline
      invalidate_wallet_info check_rate_limit is_healthy get_wallet_info set_wallet_info
      get_idempotency set_idempotency
  cache_manager-NeverRaises wallet_id wallet_ids balance max_requests user endpoint key json = (
    λ s. caught _ _,
    λ s. caught _ _,
    λ s. caught _ _,
    λ s. caught _ _,
    λ s. caught _ _,
    λ s. caught _ _,
    λ s. caught _ _,
    λ s. caught _ _,
    λ s. caught _ _,
    λ s. caught _ _,
    λ s. caught _ _,
  )

  -- The amount that an entry stands for.
  abbrev pub cached_amount : Option String → Option ℕ
  cached_amount none = none
  cached_amount (some text) = parse_decimal text

  abbrev pub Serves : Option String → Option ℕ → Type 0
  Serves text r = (r ≡ none) ⊎ (r ≡ cached_amount text)

  decode_balance_law :
      (text : Option String) (s : Server)
      → Outcome
          (λ r s'. (r ≡ cached_amount text) × (s' ≡ s))
          (λ e s'. s' ≡ s)
          (decode_balance texts redis text s)
  decode_balance_law none s = (refl, refl)
  decode_balance_law (some text) s = parsed (parse_decimal text)
    where
      parsed :
          (n : Option ℕ)
          → Outcome {S = Server}
              (λ r s'. (r ≡ n) × (s' ≡ s))
              (λ e s'. s' ≡ s)
              ((do amount ← or_raise (unexpected 1) n; pure (some amount)) s)
      parsed none = refl
      parsed (some n) = (refl, refl)

  Serves-Fades :
      (k : String) (before after : Server) (text : Option String) (r : Option ℕ)
      → Fades (entry before) (entry after)
      → text ≡ entry after k
      → r ≡ cached_amount text
      → Serves (entry before k) r
  Serves-Fades k before after text r f e h = elim (f k) [
    | inl same ↦ inr (h ∙ ap cached_amount (e ∙ same))
    | inr gone ↦ inl (h ∙ ap cached_amount (e ∙ gone))
  ]

  pub get_balance_law :
      (id : Uuid) (s : Server)
      → Returns
          (λ r s'. Serves (entry s (balance_key id)) r × Fades (entry s) (entry s'))
          (get_balance texts redis id s)
  unfolding get_balance
  get_balance_law id s =
      Outcome-catch (λ r s'. Serves (entry s (balance_key id)) r × Fades (entry s) (entry s')) _
        (λ e s'. Fades (entry s) (entry s')) _ _ _
        (Outcome-bind _ _ _ _ (redis.get (balance_key id) s) _ (redis.get_law (balance_key id) s)
          (λ text s₁ g.
            Outcome-weaken _
              (λ r s'. Serves (entry s (balance_key id)) r × Fades (entry s) (entry s')) _
              (λ e s'. Fades (entry s) (entry s')) _ (decode_balance_law text s₁)
              (λ r s₂ h. (
                Serves-Fades (balance_key id) s s₁ text r g.1 g.0 h.0,
                subst (λ c. Fades (entry s) (entry c)) (sym h.1) g.1,
              ))
              (λ e s₂ h. subst (λ c. Fades (entry s) (entry c)) (sym h) g.1))
          (λ e s₁ h. h.1))
        (λ r s' h. h) (λ e s' f. (inl refl, f))

  pub set_balance_law :
      (id : Uuid) (n : ℕ) (s : Server)
      → Returns
          (λ _ s'. Puts (balance_key id) (decimal_text n) (entry s) (entry s'))
          (set_balance texts redis id n s)
  unfolding set_balance
  set_balance_law id n s =
      Outcome-catch _ _ _ _ (redis.setex _ _ _ s) _ (redis.setex_law _ _ _ s) (λ _ s' h. h.2)
        (λ e s' h. h.1)

  pub invalidate_balance_law :
      (id : Uuid) (s : Server)
      → Returns (λ _ s'. Fades (entry s) (entry s')) (invalidate_balance texts redis id s)
  unfolding invalidate_balance
  invalidate_balance_law id s =
      Outcome-catch _ _ _ _ (redis.delete _ s) _ (redis.delete_law _ s) (λ _ s' h. h.1)
        (λ e s' h. h.1)

  pub invalidate_wallet_info_law :
      (id : Uuid) (s : Server)
      → Returns (λ _ s'. Fades (entry s) (entry s')) (invalidate_wallet_info texts redis id s)
  unfolding invalidate_wallet_info
  invalidate_wallet_info_law id s =
      Outcome-catch _ _ _ _ (redis.delete _ s) _ (redis.delete_law _ s) (λ _ s' h. h.1)
        (λ e s' h. h.1)

  -- After `set_balance` the cache answers the balance that was set, nothing, or what it would have
  -- answered before.
  pub set_balance-Serves :
      (id : Uuid) (n : ℕ) (s : Server)
      → Returns
          (λ r _. (r ≡ some n) ⊎ Serves (entry s (balance_key id)) r)
          ((set_balance texts redis id n >> get_balance texts redis id) s)
  set_balance-Serves id n s =
      Returns-bind _ _ _ (set_balance texts redis id n s) _ (set_balance_law id n s) (λ _ s₁ p.
        Outcome-weaken (λ r s'. Serves (entry s₁ (balance_key id)) r × Fades (entry s₁) (entry s'))
          _ (λ _ _. ⊥) (λ _ _. ⊥) (get_balance texts redis id s₁) (get_balance_law id s₁)
          (λ r s₂ h. answer s₁ r (p _) h.0) (λ e s₂ h. h))
    where
      answer :
          (s₁ : Server) (r : Option ℕ)
          → (entry s₁ (balance_key id) ≡ entry s (balance_key id))
            ⊎ ((entry s₁ (balance_key id) ≡ none)
                ⊎ ((balance_key id ≡ balance_key id)
                    × (entry s₁ (balance_key id) ≡ some (decimal_text n))))
          → Serves (entry s₁ (balance_key id)) r
          → (r ≡ some n) ⊎ Serves (entry s (balance_key id)) r
      answer s₁ r p (inl e) = inr (inl e)
      answer s₁ r (inl same) (inr e) = inr (inr (e ∙ ap cached_amount same))
      answer s₁ r (inr (inl gone)) (inr e) = inr (inl (e ∙ ap cached_amount gone))
      answer s₁ r (inr (inr put)) (inr e) =
          inl (e ∙ (ap cached_amount put.1 ∙ texts.parse_decimal_text n))
