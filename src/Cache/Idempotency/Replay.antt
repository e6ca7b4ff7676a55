-- ===== src/Cache/Idempotency/Replay.antt =====
-- What `check_key` and `store_key` of payment-system/app/services/idempotency_service.py do to an
-- entry that, if it is there, holds the response of the ledger entry with its key.
use payment_system.Base.{
  ℕ, ◌≡◌, refl, sym, subst, ◌⊎◌, inl, inr, String, Bool, true, false, Option, none, some, str_eq,
  eq_iff, Bool-cases, arith,
}
use payment_system.Core.Exec.{◌>>=◌}
use payment_system.Core.Outcome.{Outcome, Returns, Outcome-bind, Outcome-catch, Returns-weaken}
use payment_system.Models.Transaction.{Transaction}
use payment_system.Models.Tables.{Tables, by_key}
use payment_system.Schemas.Payment.{TransactionResponse, transaction_response}
use payment_system.Store.Session.{Follows}
use payment_system.Cache.Redis.{Texts, Redis, Fades, Puts}
use payment_system.Cache.Keys.{idempotency_cache_key}
use payment_system.Cache.Idempotency.{decode_stored, check_key, store_key}

module _ (texts : Texts) (redis : Redis) where
  open redis use {Server, entry}
  open texts use {Json, stored, dumps}

  -- The text is that of the response for the ledger entry with the key.
  abbrev pub Agrees : String → Tables → Option String → Type 0
  Agrees key t text =
      (text ≡ none)
      ⊎ ((x : Transaction) × (by_key key t.transactions ≡ some x)
          × (text ≡ some (dumps (stored (transaction_response x) 201))))

  abbrev pub IsCoherent : String → Tables → Server → Type 0
  IsCoherent key t s = Agrees key t (entry s (idempotency_cache_key key))

  -- Nothing, or what was stored for the ledger entry with the key.
  abbrev pub Replays : String → Tables → Option Json → Type 0
  Replays key t r =
      (r ≡ none)
      ⊎ ((x : Transaction) × (by_key key t.transactions ≡ some x)
          × (r ≡ some (stored (transaction_response x) 201)))

  pub IsCoherent-Follows :
      (key : String) (t t' : Tables) (s : Server)
      → Follows t t'
      → IsCoherent key t s
      → IsCoherent key t' s
  IsCoherent-Follows key t t' s f (inl e) = inl e
  IsCoherent-Follows key t t' s f (inr (x, found, e)) = inr (x, f.ledger key x found, e)

  pub IsCoherent-Fades :
      (key : String) (t : Tables) (s s' : Server)
      → Fades (entry s) (entry s')
      → IsCoherent key t s
      → IsCoherent key t s'
  IsCoherent-Fades key t s s' f h = elim (f (idempotency_cache_key key)) [
    | inl same ↦ subst (Agrees key t) (sym same) h
    | inr gone ↦ inl gone
  ]

  decoded :
      (key : String) (t : Tables) (x : Transaction) (s : Server)
      → by_key key t.transactions ≡ some x
      → Returns
          (λ r s'. Replays key t r × (s' ≡ s))
          (decode_stored texts redis (some (dumps (stored (transaction_response x) 201))) s)
  decoded key t x s found =
      let text = dumps (stored (transaction_response x) 201) in
      elim (Bool-cases (str_eq text "")) [
        | inl empty ↦
            absurd (texts.dumps_nonempty (transaction_response x) 201 ((eq_iff text "").0 empty))
        | inr full ↦
            rw (full, texts.loads_dumps (transaction_response x) 201) (inr (x, found, refl), refl)
      ]

  decode_stored_law :
      (key : String) (t : Tables) (text : Option String) (s : Server)
      → Agrees key t text
      → Returns (λ r s'. Replays key t r × (s' ≡ s)) (decode_stored texts redis text s)
  decode_stored_law key t none s h = (inl refl, refl)
  decode_stored_law key t (some text) s (inl e) = absurd (ground arith)
  decode_stored_law key t (some text) s (inr (x, found, e)) =
      subst (λ c. Returns (λ r s'. Replays key t r × (s' ≡ s)) (decode_stored texts redis c s))
        (sym e) (decoded key t x s found)

  -- `check_key` never raises, whatever Redis does. It answers nothing or what was stored for the
  -- ledger entry with the key, if the cache entry is one that agrees with the ledger, and leaves it so.
  pub check_key-Replays :
      (client : Bool) (key : String) (t : Tables) (s : Server)
      → IsCoherent key t s
      → Returns (λ r s'. Replays key t r × IsCoherent key t s') (check_key texts redis client key s)
  unfolding check_key
  check_key-Replays false key t s h = elim (Bool-cases (str_eq key "")) [
    | inl empty ↦ rw empty (inl refl, h)
    | inr full ↦ rw full (inl refl, h)
  ]
  check_key-Replays true key t s h = elim (Bool-cases (str_eq key "")) [
    | inl empty ↦ rw empty (inl refl, h)
    | inr full ↦ rw full (
        Outcome-catch (λ r s'. Replays key t r × IsCoherent key t s')
          (λ r s'. Replays key t r × IsCoherent key t s') (λ _ s'. IsCoherent key t s') (λ _ _. ⊥) _
          _ looked_up (λ r s₁ k. k) (λ e s₁ k. (inl refl, k)))
  ]
    where
      looked_up :
          Outcome
            (λ r s'. Replays key t r × IsCoherent key t s')
            (λ _ s'. IsCoherent key t s')
            ((do cached ← redis.get (idempotency_cache_key key); decode_stored texts redis cached)
              s)
      looked_up =
          Outcome-bind _ (λ r s'. Replays key t r × IsCoherent key t s') _
            (λ _ s'. IsCoherent key t s') (redis.get (idempotency_cache_key key) s) _
            (redis.get_law (idempotency_cache_key key) s)
            (λ text s₁ g.
              let coherent = IsCoherent-Fades key t s s₁ g.1 h in
              Returns-weaken _ (λ r s'. Replays key t r × IsCoherent key t s')
                (λ _ s'. IsCoherent key t s') (decode_stored texts redis text s₁)
                (decode_stored_law key t text s₁ (subst (Agrees key t) (sym g.0) coherent))
                (λ r s₂ k. (k.0, subst (IsCoherent key t) (sym k.1) coherent)))
            (λ e s₁ g. IsCoherent-Fades key t s s₁ g.1 h)

  -- `store_key` of the response of the ledger entry with the key never raises, whatever Redis does,
  -- and leaves a cache entry that agrees with the ledger.
  pub store_key-IsCoherent :
      (client : Bool) (key : String) (t : Tables) (x : Transaction) (s : Server)
      → by_key key t.transactions ≡ some x
      → IsCoherent key t s
      → Returns
          (λ _ s'. IsCoherent key t s')
          (store_key texts redis client key (transaction_response x) 201 s)
  unfolding store_key
  store_key-IsCoherent false key t x s found h = h
  store_key-IsCoherent true key t x s found h =
      Outcome-catch _ (λ _ s'. IsCoherent key t s') _ (λ _ _. ⊥) (redis.setex _ _ _ s) _
        (redis.setex_law _ _ _ s) (λ _ s₁ k. put s₁ k.2) (λ e s₁ k. put s₁ k.1)
    where
      put :
          (s₁ : Server)
          → Puts
              (idempotency_cache_key key)
              (dumps (stored (transaction_response x) 201))
              (entry s)
              (entry s₁)
          → IsCoherent key t s₁
      put s₁ p = elim (p (idempotency_cache_key key)) [
        | inl same ↦ subst (Agrees key t) (sym same) h
        | inr (inl gone) ↦ inl gone
        | inr (inr (_, set)) ↦ inr (x, found, set)
      ]

  pub store_key-Returns :
      (client : Bool) (key : String) (r : TransactionResponse) (status : ℕ) (s : Server)
      → Returns (λ _ _. Unit {0}) (store_key texts redis client key r status s)
  unfolding store_key
  store_key-Returns false key r status s = tt
  store_key-Returns true key r status s =
      Outcome-catch _ (λ _ _. Unit {0}) _ (λ _ _. ⊥) (redis.setex _ _ _ s) _
        (redis.setex_law _ _ _ s) (λ _ _ _. tt) (λ _ _ _. tt)
