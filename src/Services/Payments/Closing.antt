-- ===== src/Services/Payments/Closing.antt =====
-- What holds of a payment of payment-system/app/services/payment_service.py still holds after the
-- session is closed, while other sessions commit.
use payment_system.Base.{inl, inr, Bool}
use payment_system.Core.Exceptions.{Exception}
use payment_system.Core.Outcome.{IsUnexpected}
use payment_system.Models.Wallet.{Uuid}
use payment_system.Models.Tables.{Tables}
use payment_system.Schemas.Payment.{PaymentRequest, TransactionResponse}
use payment_system.Store.Session.{View, Follows}
use payment_system.Store.Database.{Database}
use payment_system.Store.Follows.{Follows-trans}
use payment_system.Cache.Redis.{Texts, Redis}
use payment_system.Cache.Idempotency.Replay.{IsCoherent, IsCoherent-Follows}
use payment_system.Services.Transfer.{Order}
use payment_system.Services.Transfer.Trace.{Posted}
use payment_system.Services.Transfer.Money.{Posted-Follows}
use payment_system.Services.Payments.{order_of}
use payment_system.Services.Payments.Outcomes.{
  Transferred, Denied-Follows, Denied-later, unexpected_Denied, Sent, Failed,
}

module _ (db : Database) (texts : Texts) (redis : Redis) (client : Bool) (user : Uuid)
    (request : PaymentRequest) (d : Tables) where
  open db use {Others, others_trans, others_Follows}
  open redis use {Server}

  Posted-later :
      (o : Order) (r : TransactionResponse) (t t' : Tables)
      → Posted db o d r t
      → Others t t'
      → Posted db o d r t'
  Posted-later o r t t' p k = record {
    sender = p.sender;
    receiver = p.receiver;
    sender_id = p.sender_id;
    receiver_id = p.receiver_id;
    covered = p.covered;
    start = p.start;
    begun = p.begun;
    after_debit = p.after_debit;
    debit = p.debit;
    after_credit = p.after_credit;
    credit = p.credit;
    before_entry = p.before_entry;
    arrived = p.arrived;
    id = p.id;
    now = p.now;
    unique = p.unique;
    checked = p.checked;
    committed = p.committed;
    published = p.published;
    sender_row = p.sender_row;
    receiver_row = p.receiver_row;
    later = others_trans _ _ _ p.later k;
    response = p.response;
  }

  Transferred-later :
      (r : TransactionResponse) (t t' : Tables)
      → Transferred db texts redis user request d r t
      → Others t t'
      → Transferred db texts redis user request d r t'
  Transferred-later r t t' m o = record {
    sender = m.sender;
    receiver = m.receiver;
    sender_row = m.sender_row;
    receiver_row = m.receiver_row;
    distinct = m.distinct;
    posted = Posted-later (order_of request m.sender.id m.receiver.id) r t t' m.posted o;
  }

  Sent-Follows :
      (r : TransactionResponse) (v : View) (c : Server)
      → Sent db texts redis client user request d r v c
      → Follows d v.durable
  Sent-Follows r v c s = elim s.moved [
    | inl o ↦ others_Follows _ _ o
    | inr m ↦ Posted-Follows db (order_of request m.sender.id m.receiver.id) d v.durable r m.posted
  ]

  IsCoherent-later :
      (v v' : View) (c : Server)
      → IsCoherent texts redis request.idempotency_key v.durable c
      → Others v.durable v'.durable
      → IsCoherent texts redis request.idempotency_key v'.durable c
  IsCoherent-later v v' c k o =
      IsCoherent-Follows texts redis request.idempotency_key v.durable v'.durable c
        (others_Follows _ _ o) k

  pub Sent-later :
      (r : TransactionResponse) (v v' : View) (c : Server)
      → Sent db texts redis client user request d r v c
      → Others v.durable v'.durable
      → Sent db texts redis client user request d r v' c
  Sent-later r v v' c s o = record {
    entry = s.entry;
    recorded = (others_Follows _ _ o).ledger request.idempotency_key s.entry s.recorded;
    response = s.response;
    moved = elim s.moved [
      | inl others ↦ inl (others_trans _ _ _ others o)
      | inr m ↦ inr (Transferred-later r v.durable v'.durable m o)
    ];
    coherent = IsCoherent-later v v' c s.coherent o;
  }

  pub Sent-Failed :
      (r : TransactionResponse) (e : Exception) (v v' : View) (c : Server)
      → Sent db texts redis client user request d r v c
      → IsUnexpected e
      → Others v.durable v'.durable
      → Failed db texts redis client user request d e v' c
  Sent-Failed r e v v' c s u o = record {
    denied =
        unexpected_Denied db texts redis request d v'.durable e u
          (Follows-trans _ _ _ (Sent-Follows r v c s) (others_Follows _ _ o));
    coherent = IsCoherent-later v v' c s.coherent o;
    before = inr u;
  }

  pub Failed-later :
      (e : Exception) (v v' : View) (c : Server)
      → Failed db texts redis client user request d e v c
      → Others v.durable v'.durable
      → Failed db texts redis client user request d e v' c
  Failed-later e v v' c f o = record {
    denied = Denied-later db texts redis request d v.durable v'.durable e f.denied o;
    coherent = IsCoherent-later v v' c f.coherent o;
    before = f.before;
  }

  pub Failed-replaced :
      (e₀ e : Exception) (v v' : View) (c : Server)
      → Failed db texts redis client user request d e₀ v c
      → IsUnexpected e
      → Others v.durable v'.durable
      → Failed db texts redis client user request d e v' c
  Failed-replaced e₀ e v v' c f u o = record {
    denied = unexpected_Denied db texts redis request d v'.durable e u (
        Follows-trans _ _ _ (Denied-Follows db texts redis request d v.durable e₀ f.denied)
          (others_Follows _ _ o));
    coherent = IsCoherent-later v v' c f.coherent o;
    before = inr u;
  }
