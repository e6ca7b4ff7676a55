-- ===== src/Models/Transaction.antt =====
-- The ledger model, payment-system/app/models/transaction.py.
use payment_system.Base.{ℕ, String, Bool, not, ◌&&◌, Option, ltb, ◌==◌}
use payment_system.Models.Wallet.{Uuid, Time}

pub data TransactionStatus : Type 0 where
  pending completed failed : TransactionStatus

pub record Transaction : Type 0 where
  pub id : Uuid
  pub sender_wallet_id : Uuid
  pub receiver_wallet_id : Uuid
  pub amount : ℕ
  pub currency : String
  pub status : TransactionStatus
  pub idempotency_key : String
  pub description : Option String
  pub created_at : Time

-- The keyword arguments of `Transaction(...)` in the payment service.
pub record Draft : Type 0 where
  pub sender_wallet_id : Uuid
  pub receiver_wallet_id : Uuid
  pub amount : ℕ
  pub currency : String
  pub status : TransactionStatus
  pub idempotency_key : String
  pub description : Option String

-- The defaults of `id` and `created_at`, which the flush fills in.
abbrev pub fill : Uuid → Time → Draft → Transaction
fill id now d = record {
  id = id;
  sender_wallet_id = d.sender_wallet_id;
  receiver_wallet_id = d.receiver_wallet_id;
  amount = d.amount;
  currency = d.currency;
  status = d.status;
  idempotency_key = d.idempotency_key;
  description = d.description;
  created_at = now;
}

-- The two CHECK constraints of the table.
abbrev pub passes_checks : Draft → Bool
passes_checks d = ltb 0 d.amount && not (d.sender_wallet_id == d.receiver_wallet_id)
