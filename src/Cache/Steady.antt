-- ===== src/Cache/Steady.antt =====
-- A Redis server on which no command fails and no entry runs out, and the round trips through
-- payment-system/app/services/cache_manager.py and payment-system/app/services/idempotency_service.py.
use payment_system.Base.{
  ℕ, ◌≡◌, ◌≢◌, refl, ◌∙◌, String, true, Option, some, inl, inr, str_eq, eq_iff, Bool-cases,
}
use payment_system.Core.Exec.{◌>>◌}
use payment_system.Core.Outcome.{Returns, Outcome-both, Outcome-catch, Returns-bind, Returns-weaken}
use payment_system.Models.Wallet.{Uuid}
use payment_system.Schemas.Payment.{TransactionResponse}
use payment_system.Cache.Redis.{Texts, Redis, Puts}
use payment_system.Cache.Keys.{balance_key, balance_ttl, idempotency_cache_key}
use payment_system.Cache.Manager.{decode_balance, get_balance, set_balance}
use payment_system.Cache.Idempotency.{decode_stored, check_key, store_key, ttl_seconds}

pub record IsSteady (redis : Redis) : Type 0 where
  pub gets : (k : String) (s : redis.Server) → Returns (λ r _. r ≡ redis.entry s k) (redis.get k s)
  pub sets :
      (k : String) (seconds : ℕ) (v : String) (s : redis.Server)
      → Returns (λ _ _. Unit {0}) (redis.setex k seconds v s)
  pub incrs : (k : String) (s : redis.Server) → Returns (λ _ _. Unit {0}) (redis.incr k s)
  pub expires :
      (k : String) (seconds : ℕ) (s : redis.Server)
      → Returns (λ _ _. Unit {0}) (redis.expire k seconds s)

module _ (texts : Texts) (redis : Redis) (steady : IsSteady redis) where
  open redis use {Server, entry}

  put_law :
      (k : String) (seconds : ℕ) (v : String) (s : Server)
      → Returns (λ _ s'. entry s' k ≡ some v) (redis.setex k seconds v s)
  put_law k seconds v s =
      Returns-weaken
        (λ _ s'.
          (entry s' k ≡ some v) × (redis.ttl s' k ≡ some seconds) × Puts k v (entry s) (entry s'))
        _ (λ _ _. ⊥) (redis.setex k seconds v s)
        (Outcome-both _ _ _ (redis.setex k seconds v s) (redis.setex_law k seconds v s)
          (steady.sets k seconds v s))
        (λ _ s' h. h.0)

  set_balance_puts :
      (id : Uuid) (n : ℕ) (s : Server)
      → Returns
          (λ _ s'. entry s' (balance_key id) ≡ some (texts.decimal_text n))
          (set_balance texts redis id n s)
  unfolding set_balance
  set_balance_puts id n s =
      Outcome-catch _ (λ _ s'. entry s' (balance_key id) ≡ some (texts.decimal_text n)) (λ _ _. ⊥)
        (λ _ _. ⊥) (redis.setex _ _ _ s) _ (put_law (balance_key id) balance_ttl _ s) (λ _ _ h. h)
        (λ _ _ x. absurd x)

  get_balance_reads :
      (id : Uuid) (n : ℕ) (s : Server)
      → entry s (balance_key id) ≡ some (texts.decimal_text n)
      → Returns (λ r _. r ≡ some n) (get_balance texts redis id s)
  unfolding get_balance
  get_balance_reads id n s e =
      Outcome-catch (λ r _. r ≡ some n) (λ r _. r ≡ some n) (λ _ _. ⊥) (λ _ _. ⊥) _ _
        (Returns-bind _ (λ r _. r ≡ some n) (λ _ _. ⊥) (redis.get (balance_key id) s) _
          (steady.gets (balance_key id) s) (λ text s₁ h. decoded text s₁ (h ∙ e)))
        (λ _ _ h. h) (λ _ _ x. absurd x)
    where
      decoded :
          (text : Option String) (s₁ : Server)
          → text ≡ some (texts.decimal_text n)
          → Returns (λ r _. r ≡ some n) (decode_balance texts redis text s₁)
      decoded text s₁ q = rw (q, texts.parse_decimal_text n) refl

  -- On a server where no command fails and no entry runs out, `get_balance` answers the balance that
  -- `set_balance` has set.
  pub get_balance-set_balance :
      (id : Uuid) (n : ℕ) (s : Server)
      → Returns (λ r _. r ≡ some n) ((set_balance texts redis id n >> get_balance texts redis id) s)
  get_balance-set_balance id n s =
      Returns-bind _ _ _ (set_balance texts redis id n s) _ (set_balance_puts id n s)
        (λ _ s₁ e. get_balance_reads id n s₁ e)

  -- On a server where no command fails and no entry runs out, `check_key` of a key that is not empty
  -- answers what `store_key` has stored under it.
  pub check_key-store_key :
      (key : String) (r : TransactionResponse) (status : ℕ) (s : Server)
      → key ≢ ""
      → Returns
          (λ j _. j ≡ some (texts.stored r status))
          ((store_key texts redis true key r status >> check_key texts redis true key) s)
  unfolding store_key check_key
  check_key-store_key key r status s full =
      Returns-bind _ _ _ (store_key texts redis true key r status s) _ (store_key_puts s)
        (λ _ s₁ e. check_key_reads s₁ e)
    where
      store_key_puts :
          (s : Server)
          → Returns
              (λ _ s'.
                entry s' (idempotency_cache_key key) ≡ some (texts.dumps (texts.stored r status)))
              (store_key texts redis true key r status s)
      store_key_puts s =
          Outcome-catch _
            (λ _ s'.
              entry s' (idempotency_cache_key key) ≡ some (texts.dumps (texts.stored r status)))
            (λ _ _. ⊥) (λ _ _. ⊥) (redis.setex _ _ _ s) _
            (put_law (idempotency_cache_key key) ttl_seconds _ s) (λ _ _ h. h) (λ _ _ x. absurd x)

      decoded :
          (text : Option String) (s₁ : Server)
          → text ≡ some (texts.dumps (texts.stored r status))
          → Returns (λ j _. j ≡ some (texts.stored r status)) (decode_stored texts redis text s₁)
      decoded text s₁ q =
          rw q (elim (Bool-cases (str_eq (texts.dumps (texts.stored r status)) "")) [
            | inl empty ↦ absurd (texts.dumps_nonempty r status ((eq_iff _ "").0 empty))
            | inr more ↦ rw (more, texts.loads_dumps r status) refl
          ])

      check_key_reads :
          (s₁ : Server)
          → entry s₁ (idempotency_cache_key key) ≡ some (texts.dumps (texts.stored r status))
          → Returns (λ j _. j ≡ some (texts.stored r status)) (check_key texts redis true key s₁)
      check_key_reads s₁ e = elim (Bool-cases (str_eq key "")) [
        | inl empty ↦ absurd (full ((eq_iff key "").0 empty))
        | inr more ↦ rw more (
            Outcome-catch (λ j _. j ≡ some (texts.stored r status))
              (λ j _. j ≡ some (texts.stored r status)) (λ _ _. ⊥) (λ _ _. ⊥) _ _
              (Returns-bind _ (λ j _. j ≡ some (texts.stored r status)) (λ _ _. ⊥)
                (redis.get (idempotency_cache_key key) s₁) _
                (steady.gets (idempotency_cache_key key) s₁) (λ text s₂ h. decoded text s₂ (h ∙ e)))
              (λ _ _ h. h) (λ _ _ x. absurd x))
      ]
