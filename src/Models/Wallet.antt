-- ===== src/Models/Wallet.antt =====
-- The wallet model, payment-system/app/models/wallet.py.
use payment_system.Base.{ℕ, ◌^◌, String, Bool, ltb}

-- A UUID is its 128-bit integer, by which Python orders UUIDs too; a datetime is a count of
-- microseconds.
abbrev pub Uuid : Type 0
Uuid = ℕ

abbrev pub Time : Type 0
Time = ℕ

-- `balance` is the Numeric(18, 2) column in cents. Amounts are positive by the request schemas and
-- the only subtraction follows a test, so the natural numbers hold every value it takes.
pub record Wallet : Type 0 where
  pub id : Uuid
  pub user_id : Uuid
  pub balance : ℕ
  pub currency : String
  pub version : ℕ
  pub created_at : Time
  pub updated_at : Time

-- `Wallet(user_id=...)` with the column defaults that the flush fills in.
abbrev pub default_wallet : Uuid → Time → Uuid → Wallet
default_wallet id now user_id = record {
  id = id;
  user_id = user_id;
  balance = 0;
  currency = "USD";
  version = 1;
  created_at = now;
  updated_at = now;
}

-- `onupdate` of the `updated_at` column.
abbrev pub touch : Time → Wallet → Wallet
touch now w = record w { updated_at = now }

-- Numeric(18, 2) has sixteen digits before the point.
abbrev pub fits_column : ℕ → Bool
fits_column cents = ltb cents (10 ^ 18)
