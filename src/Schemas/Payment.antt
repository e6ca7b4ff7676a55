-- ===== src/Schemas/Payment.antt =====
-- The payment schemas, payment-system/app/schemas/payment.py.
use Prim.Native.String.{count}
use Prim.Native.Char.{code}
use payment_system.Base.{ℕ, String, Bool, true, ◌&&◌, Option, none, some, List, ltb, leb, ◌==◌}
use payment_system.Models.Wallet.{Uuid, Time}
use payment_system.Models.Transaction.{Transaction, TransactionStatus, pending, completed, failed}

pub record PaymentRequest : Type 0 where
  pub receiver_id : Uuid
  pub amount : ℕ
  pub currency : String
  pub idempotency_key : String
  pub description : Option String

-- The characters of a text all lie in A to Z.
abbrev pub all_upper : String → Bool
all_upper String.[] = true
all_upper (String.◌∷◌ c rest) = (leb b'A' (code c) && leb (code c) b'Z') && all_upper rest

abbrev pub short : Option String → Bool
short none = true
short (some text) = leb (count text) 500

-- The `Field` constraints: `amount` above zero, a currency of three capitals, a key of 1 to 255
-- characters, a description of at most 500. (`decimal_places=2` is in the amount's unit.)
unfoldable pub accepts : PaymentRequest → Bool
accepts r =
    ltb 0 r.amount
    && (all_upper r.currency && (count r.currency == 3))
    && (leb 1 (count r.idempotency_key) && leb (count r.idempotency_key) 255)
    && short r.description

pub record TransactionResponse : Type 0 where
  pub id : Uuid
  pub sender_wallet_id : Uuid
  pub receiver_wallet_id : Uuid
  pub amount : ℕ
  pub currency : String
  pub status : String
  pub idempotency_key : String
  pub description : Option String
  pub created_at : Time

-- The value of a `TransactionStatus`.
abbrev pub status_value : TransactionStatus → String
status_value pending = "PENDING"
status_value completed = "COMPLETED"
status_value failed = "FAILED"

-- `TransactionResponse.model_validate(txn)`, by attributes.
abbrev pub transaction_response : Transaction → TransactionResponse
transaction_response x = record {
  id = x.id;
  sender_wallet_id = x.sender_wallet_id;
  receiver_wallet_id = x.receiver_wallet_id;
  amount = x.amount;
  currency = x.currency;
  status = status_value x.status;
  idempotency_key = x.idempotency_key;
  description = x.description;
  created_at = x.created_at;
}

pub record TransactionListResponse : Type 0 where
  pub transactions : List TransactionResponse
  pub total : ℕ
  pub page : ℕ
  pub page_size : ℕ
