-- ===== src/Services/Payments/Outcomes.antt =====
-- How `send_money` of payment-system/app/services/payment_service.py may end.
use payment_system.Base.{◌≡◌, ◌≢◌, ◌<◌, refl, ◌⊎◌, inl, inr, Bool, some, eq_iff}
use payment_system.Core.Exceptions.{
  Exception, wallet_not_found, insufficient_balance, duplicate_transaction, self_transfer,
  optimistic_lock, integrity_error, unexpected,
}
use payment_system.Core.Outcome.{IsLibrary, IsUnexpected}
use payment_system.Models.Wallet.{Uuid, Wallet}
use payment_system.Models.Transaction.{Transaction, fill}
use payment_system.Models.Tables.{Tables, by_key}
use payment_system.Schemas.Payment.{PaymentRequest, TransactionResponse, transaction_response}
use payment_system.Store.Session.{View, Follows}
use payment_system.Store.Database.{Database}
use payment_system.Store.Shown.{Queried}
use payment_system.Store.Follows.{Follows-trans}
use payment_system.Cache.Redis.{Texts, Redis}
use payment_system.Cache.Idempotency.Replay.{IsCoherent, IsCoherent-Follows}
use payment_system.Services.World.{World}
use payment_system.Services.Transfer.{Order, draft_of}
use payment_system.Services.Transfer.Trace.{Posted, Refused}
use payment_system.Services.Payments.{order_of}

module _ (db : Database) (texts : Texts) (redis : Redis) where
  open db use {Session, view, Others, others_refl, others_trans, others_Follows}
  open redis use {Server, entry}

  -- The ledger entry of a posted transfer stands in the tables that it led to.
  pub Posted-recorded :
      (o : Order) (from to : Tables) (r : TransactionResponse)
      → Posted db o from r to
      → (x : Transaction) × (by_key o.idempotency_key to.transactions ≡ some x)
        × (r ≡ transaction_response x)
  Posted-recorded o from to r p = (
    x,
    (others_Follows _ _ (others_trans _ _ _ p.published p.later)).ledger o.idempotency_key x
        (rw ((eq_iff o.idempotency_key o.idempotency_key).1 refl) refl),
    p.response,
  )
    where
      x : Transaction
      x = fill p.id p.now (draft_of o p.sender p.receiver)

  -- A money movement between the wallets that the queries for the two users returned.
  pub record Transferred (user : Uuid) (request : PaymentRequest) (d : Tables)
      (r : TransactionResponse) (to : Tables) : Type 0 where
    pub sender : Wallet
    pub receiver : Wallet
    pub sender_row : Queried db user d sender
    pub receiver_row : Queried db request.receiver_id d receiver
    pub distinct : sender.id ≢ receiver.id
    pub posted : Posted db (order_of request sender.id receiver.id) d r to

  -- How a payment may raise, with the durable tables going from `d` to `d'`: only an unexpected
  -- exception may leave a money movement durable.
  abbrev pub Denied : PaymentRequest → Tables → Tables → Exception → Type 0
  Denied request d d' wallet_not_found = Others d d'
  Denied request d d' self_transfer = Others d d'
  Denied request d d' duplicate_transaction = Others d d'
  Denied request d d' optimistic_lock = Others d d'
  Denied request d d' integrity_error = Others d d'
  Denied request d d' (insufficient_balance available required) =
      (required ≡ request.amount) × (available < required) × Others d d'
  Denied request d d' (unexpected class) = Others d d' ⊎ Follows d d'
  Denied request d d' _ = ⊥

  pub Denied-Refused :
      (request : PaymentRequest) (a b : Uuid) (d d' : Tables) (e : Exception)
      → Refused db (order_of request a b) d d d' e
      → Denied request d d' e
  Denied-Refused request a b d d' wallet_not_found h = h
  Denied-Refused request a b d d' (insufficient_balance available required) h = h
  Denied-Refused request a b d d' optimistic_lock h = h
  Denied-Refused request a b d d' integrity_error h = h
  Denied-Refused request a b d d' (unexpected class) h = h
  Denied-Refused request a b d d' _ h = absurd h

  pub Denied-Follows :
      (request : PaymentRequest) (d d' : Tables) (e : Exception)
      → Denied request d d' e
      → Follows d d'
  Denied-Follows request d d' wallet_not_found h = others_Follows _ _ h
  Denied-Follows request d d' self_transfer h = others_Follows _ _ h
  Denied-Follows request d d' duplicate_transaction h = others_Follows _ _ h
  Denied-Follows request d d' optimistic_lock h = others_Follows _ _ h
  Denied-Follows request d d' integrity_error h = others_Follows _ _ h
  Denied-Follows request d d' (insufficient_balance available required) h = others_Follows _ _ h.2
  Denied-Follows request d d' (unexpected class) (inl h) = others_Follows _ _ h
  Denied-Follows request d d' (unexpected class) (inr h) = h
  Denied-Follows request d d' _ h = absurd h

  pub Denied-later :
      (request : PaymentRequest) (d d' d'' : Tables) (e : Exception)
      → Denied request d d' e
      → Others d' d''
      → Denied request d d'' e
  Denied-later request d d' d'' wallet_not_found h k = others_trans _ _ _ h k
  Denied-later request d d' d'' self_transfer h k = others_trans _ _ _ h k
  Denied-later request d d' d'' duplicate_transaction h k = others_trans _ _ _ h k
  Denied-later request d d' d'' optimistic_lock h k = others_trans _ _ _ h k
  Denied-later request d d' d'' integrity_error h k = others_trans _ _ _ h k
  Denied-later request d d' d'' (insufficient_balance available required) h k =
      (h.0, h.1, others_trans _ _ _ h.2 k)
  Denied-later request d d' d'' (unexpected class) (inl h) k = inl (others_trans _ _ _ h k)
  Denied-later request d d' d'' (unexpected class) (inr h) k =
      inr (Follows-trans _ _ _ h (others_Follows _ _ k))
  Denied-later request d d' d'' _ h k = absurd h

  pub library-Denied :
      (request : PaymentRequest) (d d' : Tables) (e : Exception)
      → IsLibrary e
      → Others d d'
      → Denied request d d' e
  library-Denied request d d' integrity_error l h = h
  library-Denied request d d' (unexpected class) l h = inl h
  library-Denied request d d' _ l h = absurd l

  pub unexpected_Denied :
      (request : PaymentRequest) (d d' : Tables) (e : Exception)
      → IsUnexpected e
      → Follows d d'
      → Denied request d d' e
  unexpected_Denied request d d' (unexpected class) u f = inr f
  unexpected_Denied request d d' _ u f = absurd u

  module _ (client : Bool) (user : Uuid) (request : PaymentRequest) (d : Tables) where
    abbrev Key : Tables → Server → Type 0
    Key t c = IsCoherent texts redis request.idempotency_key t c

    -- The response is that of a ledger entry with the key of the request. Other sessions wrote it, or
    -- this one together with the money movement.
    pub record Sent (r : TransactionResponse) (v : View) (c : Server) : Type 0 where
      pub entry : Transaction
      pub recorded : by_key request.idempotency_key v.durable.transactions ≡ some entry
      pub response : r ≡ transaction_response entry
      pub moved : Others d v.durable ⊎ Transferred user request d r v.durable
      pub coherent : Key v.durable c

    pub record Failed (e : Exception) (v : View) (c : Server) : Type 0 where
      pub denied : Denied request d v.durable e
      pub coherent : Key v.durable c
      pub before : Key d c ⊎ IsUnexpected e

    abbrev pub SentIn : TransactionResponse → World Session Server → Type 0
    SentIn r w' = Sent r (view w'.session) w'.server

    abbrev pub FailedIn : Exception → World Session Server → Type 0
    FailedIn e w' = Failed e (view w'.session) w'.server

    pub Failed-Denied :
        (e : Exception) (v : View) (c : Server)
        → Denied request d v.durable e
        → Key d c
        → Failed e v c
    Failed-Denied e v c h k = record {
      denied = h;
      coherent =
          IsCoherent-Follows texts redis request.idempotency_key d v.durable c
            (Denied-Follows request d v.durable e h) k;
      before = inl k;
    }
