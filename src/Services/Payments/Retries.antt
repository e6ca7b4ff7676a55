-- ===== src/Services/Payments/Retries.antt =====
-- The retry loop of `send_money` in payment-system/app/services/payment_service.py with its exception
-- handlers.
use payment_system.Base.{
  ℕ, ◌≡◌, ◌≢◌, zero, suc, Option, none, refl, sym, subst, ◌⊎◌, inl, inr, Bool, some,
}
use payment_system.Core.Exceptions.{
  Exception, user_not_found, user_already_exists, http, wallet_not_found, insufficient_balance,
  duplicate_transaction, self_transfer, optimistic_lock, integrity_error, unexpected,
}
use payment_system.Core.Exec.{Exec, raise, ◌>>=◌, ◌>>◌}
use payment_system.Core.Outcome.{IsUnexpected, Outcome, Outcome-catch}
use payment_system.Models.Wallet.{Uuid, Wallet}
use payment_system.Models.Transaction.{Transaction}
use payment_system.Models.Tables.{Tables, has_key, by_key}
use payment_system.Store.Repositories.{get_by_idempotency_key}
use payment_system.Schemas.Payment.{PaymentRequest, TransactionResponse}
use payment_system.Store.Session.{View, RolledBack}
use payment_system.Store.Database.{Database}
use payment_system.Store.Shown.{Queried}
use payment_system.Store.Follows.{Follows-trans}
use payment_system.Cache.Redis.{Texts, Redis}
use payment_system.Cache.Idempotency.Replay.{IsCoherent, IsCoherent-Follows}
use payment_system.Services.World.{World, on_session, on_session-bind}
use payment_system.Services.Wallets.Found.{Clean}
use payment_system.Services.Payments.{try_transfer, existing_or_duplicate, handle, attempts}
use payment_system.Services.Payments.Round.{try_transfer_law}
use payment_system.Services.Payments.Outcomes.{
  Denied-Follows, Denied-later, library-Denied, unexpected_Denied, SentIn, FailedIn, Failed-Denied,
}

module _ (db : Database) (texts : Texts) (redis : Redis) (client : Bool) (user : Uuid)
    (request : PaymentRequest) (d : Tables) where
  open db use {Session, view, Others, Shows, others_refl, others_trans, others_Follows}
  open redis use {Server, entry}

  abbrev Key : Tables → Server → Type 0
  Key t c = IsCoherent texts redis request.idempotency_key t c

  abbrev SentHere : TransactionResponse → World Session Server → Type 0
  SentHere = SentIn db texts redis client user request d

  abbrev FailedHere : Exception → World Session Server → Type 0
  FailedHere = FailedIn db texts redis client user request d

  -- A run that leads to a sent or a failed payment.
  abbrev Ended : Exec (World Session Server) TransactionResponse → World Session Server → Type 0
  Ended m w = Outcome SentHere FailedHere (m w)

  -- A round that starts with nothing pending may end so.
  abbrev Round : Exec (World Session Server) TransactionResponse → Type 0
  Round m =
      (w : World Session Server)
      → Clean db texts redis d (view w.session)
      → Key d w.server
      → Ended m w

  Clean-RolledBack :
      (v v' : View) → Others d v.durable → RolledBack Others Shows v v' → Clean db texts redis d v'
  Clean-RolledBack v v' h b = record { durable = others_trans _ _ _ h b.others; clean = b.back }

  -- A rollback that raised.
  failed_rollback :
      (e e' : Exception) (w : World Session Server) (s₁ : Session)
      → FailedHere e w
      → IsUnexpected e' × Others (view w.session).durable (view s₁).durable
      → FailedHere e' (record w { session = s₁ })
  failed_rollback e e' w s₁ f h =
      let later = others_Follows _ _ h.1 in
      record {
        denied =
            unexpected_Denied db texts redis request d (view s₁).durable e' h.0
              (Follows-trans _ _ _ (Denied-Follows db texts redis request d _ e f.denied) later);
        coherent =
            IsCoherent-Follows texts redis request.idempotency_key _ (view s₁).durable w.server
              later f.coherent;
        before = inr h.0;
      }

  -- Roll back and raise the same exception.
  reraise_law :
      (e : Exception) (w : World Session Server)
      → FailedHere e w
      → Ended (on_session db.rollback >> raise e) w
  reraise_law e w f =
      on_session-bind (λ _ s₁. RolledBack Others Shows (view w.session) (view s₁)) _ SentHere
        FailedHere db.rollback w _ (db.rollback_law w.session)
        (λ _ s₁ b. record {
          denied = Denied-later db texts redis request d _ (view s₁).durable e f.denied b.others;
          coherent =
              IsCoherent-Follows texts redis request.idempotency_key _ (view s₁).durable w.server
                (others_Follows _ _ b.others) f.coherent;
          before = f.before;
        })
        (λ e' s₁ h. failed_rollback e e' w s₁ f h)

  -- Roll back and go on with `m`.
  restart_law :
      (e : Exception) (w : World Session Server)
      (m : Exec (World Session Server) TransactionResponse)
      → FailedHere e w
      → Others d (view w.session).durable
      → Key d w.server
      → Round m
      → Ended (on_session db.rollback >> m) w
  restart_law e w m f h k again =
      on_session-bind (λ _ s₁. RolledBack Others Shows (view w.session) (view s₁)) _ SentHere
        FailedHere db.rollback w _ (db.rollback_law w.session)
        (λ _ s₁ b.
          again (record w { session = s₁ }) (Clean-RolledBack (view w.session) (view s₁) h b) k)
        (λ e' s₁ u. failed_rollback e e' w s₁ f u)

  -- The ledger is asked again for the key.
  recover_law : Round (
      on_session (get_by_idempotency_key db request.idempotency_key)
      >>= existing_or_duplicate db texts redis)
  unfolding get_by_idempotency_key
  recover_law w c k =
      on_session-bind _ _ SentHere FailedHere (get_by_idempotency_key db request.idempotency_key) w
        _ (db.select_transaction_law (has_key request.idempotency_key) w.session)
        (λ r s₁ q.
          existing_law r (record w { session = s₁ })
            (record {
              durable = others_trans _ _ _ c.durable q.ran.others;
              clean = q.clean c.clean;
            })
            k q.result)
        (λ e s₁ h.
          Failed-Denied db texts redis client user request d e (view s₁) w.server
            (library-Denied db texts redis request d _ e h.0 (others_trans _ _ _ c.durable h.1)) k)
    where
      existing_law :
          (r : Option Transaction) (w' : World Session Server)
          → Clean db texts redis d (view w'.session)
          → Key d w'.server
          → r ≡ by_key request.idempotency_key (view w'.session).seen.transactions
          → Outcome SentHere FailedHere (existing_or_duplicate db texts redis r w')
      existing_law none w' c' k' e =
          Failed-Denied db texts redis client user request d duplicate_transaction (view w'.session)
            w'.server c'.durable k'
      existing_law (some x) w' c' k' e = record {
        entry = x;
        recorded =
            subst (λ (t : Tables). by_key request.idempotency_key t.transactions ≡ some x) c'.clean
              (sym e);
        response = refl;
        moved = inl c'.durable;
        coherent =
            IsCoherent-Follows texts redis request.idempotency_key d (view w'.session).durable
              w'.server (others_Follows _ _ c'.durable) k';
      }

  handle_law :
      (again : Exec (World Session Server) TransactionResponse) (e : Exception)
      (w : World Session Server)
      → Round again
      → FailedHere e w
      → Ended (handle db texts redis request again e) w
  unfolding handle
  handle_law again integrity_error w h f =
      restart_law integrity_error w _ f f.denied (earlier f.before) recover_law
    where
      earlier : Key d w.server ⊎ ⊥ → Key d w.server
      earlier (inl k) = k
      earlier (inr u) = absurd u
  handle_law again optimistic_lock w h f =
      restart_law optimistic_lock w again f f.denied (earlier f.before) h
    where
      earlier : Key d w.server ⊎ ⊥ → Key d w.server
      earlier (inl k) = k
      earlier (inr u) = absurd u
  handle_law again (user_not_found id) w h f = reraise_law _ w f
  handle_law again (user_already_exists email) w h f = reraise_law _ w f
  handle_law again wallet_not_found w h f = reraise_law _ w f
  handle_law again (insufficient_balance available required) w h f = reraise_law _ w f
  handle_law again duplicate_transaction w h f = reraise_law _ w f
  handle_law again self_transfer w h f = reraise_law _ w f
  handle_law again (http status text) w h f = reraise_law _ w f
  handle_law again (unexpected class) w h f = reraise_law _ w f

  pub attempts_law :
      (sender receiver : Wallet)
      → Queried db user d sender
      → Queried db request.receiver_id d receiver
      → sender.id ≢ receiver.id
      → (left : ℕ) → Round (attempts db texts redis client request sender receiver left)
  unfolding attempts
  attempts_law sender receiver su ru distinct zero w c k =
      Failed-Denied db texts redis client user request d optimistic_lock (view w.session) w.server
        c.durable k
  attempts_law sender receiver su ru distinct (suc left) w c k =
      Outcome-catch SentHere SentHere FailedHere FailedHere
        (try_transfer db texts redis client request sender receiver w) _
        (try_transfer_law db texts redis client user request d sender receiver w c k su ru distinct)
        (λ r w₁ h. h)
        (λ e w₁ f.
          handle_law (attempts db texts redis client request sender receiver left) e w₁
            (attempts_law sender receiver su ru distinct left) f)
