-- ===== src/Api/Routes/Answered.antt =====
-- The handler of `POST /payments/send` of payment-system/app/api/v1/payments.py in its session.
use payment_system.Base.{◌≡◌, refl, sym, subst, ◌⊎◌, inl, inr, true, false, List, Bool-cases}
use payment_system.Core.Exceptions.{Exception}
use payment_system.Core.Exec.{Result, Exec}
use payment_system.Core.Outcome.{IsUnexpected, Unexpected-IsLibrary, Outcome, Outcome-bind}
use payment_system.Models.Wallet.{Uuid}
use payment_system.Models.Tables.{Tables}
use payment_system.Schemas.Payment.{PaymentRequest, accepts, TransactionResponse}
use payment_system.Store.Database.{Database}
use payment_system.Cache.Redis.{Texts, Redis}
use payment_system.Cache.Idempotency.Replay.{IsCoherent, IsCoherent-Follows}
use payment_system.Services.World.{World}
use payment_system.Services.Payments.{send_money}
use payment_system.Services.Payments.Outcomes.{SentIn, FailedIn, library-Denied}
use payment_system.Services.Payments.Once.{send_money_answers}
use payment_system.Services.Payments.Closing.{
  Sent-later, Sent-Failed, Failed-later, Failed-replaced,
}
use payment_system.Api.Errors.{ValidationError}
use payment_system.Api.Pipeline.{Routed, invalid}
use payment_system.Api.Sessions.{Sessions, with_db, with_db_law}
use payment_system.Api.Routes.{reply, validated}

module _ (db : Database) (sessions : Sessions db) (texts : Texts) (redis : Redis)
    (errors : List ValidationError) (request : PaymentRequest) (d : Tables) where
  open db use {Session, view, Others, others_refl, others_trans}
  open redis use {Server}

  abbrev Key : Tables → Server → Type 0
  Key t c = IsCoherent texts redis request.idempotency_key t c

  -- The payment was answered as it should be, or the request did not validate.
  abbrev pub Answered : Uuid → Routed TransactionResponse → World Session Server → Type 0
  Answered user r w' =
      ((accepts request ≡ true)
        × ((x : TransactionResponse) × (r ≡ reply 201 x)
            × SentIn db texts redis true user request d x w'))
      ⊎ ((accepts request ≡ false)
          × (r ≡ invalid errors)
          × Others d (view w'.session).durable
          × Key (view w'.session).durable w'.server)

  handler_law :
      (user : Uuid) (w : World Session Server)
      → (view w.session).seen ≡ (view w.session).durable
      → (view w.session).durable ≡ d
      → Key d w.server
      → Outcome
          (Answered user)
          (FailedIn db texts redis true user request d)
          (validated (accepts request) errors 201 (send_money db texts redis true user request) w)
  handler_law user w clean same k = elim (Bool-cases (accepts request)) [
    | inl valid ↦
        subst (λ b. Ends (validated b errors 201 handler w)) (sym valid)
          (Outcome-bind (SentIn db texts redis true user request d) (Answered user)
            (FailedIn db texts redis true user request d)
            (FailedIn db texts redis true user request d) (handler w) _ sent
            (λ x w' s. inl (valid, (x, refl, s))) (λ e w' f. f))
    | inr wrong ↦
        subst (λ b. Ends (validated b errors 201 handler w)) (sym wrong)
          (inr (
            wrong,
            refl,
            subst (λ t. Others t (view w.session).durable) same
                (others_refl (view w.session).durable),
            subst (λ t. Key t w.server) (sym same) k,
          ))
  ]
    where
      handler : Exec (World Session Server) TransactionResponse
      handler = send_money db texts redis true user request

      Ends : Result (Routed TransactionResponse) × World Session Server → Type 0
      Ends = Outcome (Answered user) (FailedIn db texts redis true user request d)

      sent :
          Outcome
            (SentIn db texts redis true user request d)
            (FailedIn db texts redis true user request d)
            (handler w)
      sent =
          subst
            (λ t.
              Outcome (SentIn db texts redis true user request t)
                (FailedIn db texts redis true user request t) (handler w))
            same
            (send_money_answers db texts redis true user request w clean
              (subst (λ t. Key t w.server) (sym same) k))

  pub closed_law :
      (user : Uuid) (w : World Session Server)
      → (view (sessions.open_session w.session)).durable ≡ d
      → Key d w.server
      → Outcome (Answered user) (FailedIn db texts redis true user request d) (
          with_db db sessions
            (validated (accepts request) errors 201 (send_money db texts redis true user request))
            w)
  closed_law user w same k =
      with_db_law db sessions (Answered user) (Answered user)
        (FailedIn db texts redis true user request d) (FailedIn db texts redis true user request d)
        value lost (λ e w₁ s f o. Failed-later db texts redis true user request d e _ _ _ f o)
        (λ e₀ e w₁ s f u o. Failed-replaced db texts redis true user request d e₀ e _ _ _ f u o)
        (validated (accepts request) errors 201 (send_money db texts redis true user request)) w
        (handler_law user (record w { session = sessions.open_session w.session })
          (sessions.open_session_law w.session).0 same k)
    where
      later :
          (w₁ : World Session Server) (s : Session)
          → Key (view w₁.session).durable w₁.server
          → Others (view w₁.session).durable (view s).durable
          → Key (view s).durable w₁.server
      later w₁ s k o =
          IsCoherent-Follows texts redis request.idempotency_key _ _ w₁.server
            (db.others_Follows _ _ o) k

      value :
          (r : Routed TransactionResponse) (w₁ : World Session Server) (s : Session)
          → Answered user r w₁
          → Others (view w₁.session).durable (view s).durable
          → Answered user r (record w₁ { session = s })
      value r w₁ s (inl (valid, (x, e, sent))) o =
          inl (valid, (x, e, Sent-later db texts redis true user request d x _ _ _ sent o))
      value r w₁ s (inr (wrong, e, others, k)) o =
          inr (wrong, e, others_trans _ _ _ others o, later w₁ s k o)

      lost :
          (r : Routed TransactionResponse) (e : Exception) (w₁ : World Session Server) (s : Session)
          → Answered user r w₁
          → IsUnexpected e
          → Others (view w₁.session).durable (view s).durable
          → FailedIn db texts redis true user request d e (record w₁ { session = s })
      lost r e w₁ s (inl (valid, (x, eq, sent))) u o =
          Sent-Failed db texts redis true user request d x e _ _ _ sent u o
      lost r e w₁ s (inr (wrong, eq, others, k)) u o = record {
        denied =
            library-Denied db texts redis request d (view s).durable e (Unexpected-IsLibrary e u)
              (others_trans _ _ _ others o);
        coherent = later w₁ s k o;
        before = inr u;
      }
