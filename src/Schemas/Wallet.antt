-- ===== src/Schemas/Wallet.antt =====
-- The wallet schemas, payment-system/app/schemas/wallet.py.
use payment_system.Base.{ℕ, String, Bool, ltb}
use payment_system.Models.Wallet.{Uuid, Time, Wallet}

pub record WalletResponse : Type 0 where
  pub id : Uuid
  pub user_id : Uuid
  pub balance : ℕ
  pub currency : String
  pub created_at : Time

-- `WalletResponse.model_validate(wallet)`, by attributes.
abbrev pub wallet_response : Wallet → WalletResponse
wallet_response w = record {
  id = w.id;
  user_id = w.user_id;
  balance = w.balance;
  currency = w.currency;
  created_at = w.created_at;
}

pub record WalletTopUp : Type 0 where
  pub amount : ℕ

-- `amount: Decimal = Field(..., gt=0, decimal_places=2)`
unfoldable pub accepts_top_up : WalletTopUp → Bool
accepts_top_up data' = ltb 0 data'.amount
