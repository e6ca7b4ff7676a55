-- ===== src/Models/Tables.antt =====
-- The three tables together, the lookups by their unique columns, and the declared uniqueness.
pub mod Writes
use payment_system.Base.{ℕ, ◌+◌, String, ◌≡◌, Bool, Option, none, List, [], ◌∷◌, ◌==◌, str_eq, find}
use payment_system.Models.Wallet.{Uuid, Wallet}
use payment_system.Models.Transaction.{Transaction}
use payment_system.Models.User.{User}

pub record Tables : Type 0 where
  pub users : List User
  pub wallets : List Wallet
  pub transactions : List Transaction

abbrev pub has_id : Uuid → Wallet → Bool
has_id id w = w.id == id

abbrev pub has_key : String → Transaction → Bool
has_key key x = str_eq x.idempotency_key key

abbrev pub wallet_by_id : Uuid → List Wallet → Option Wallet
wallet_by_id id = find (has_id id)

abbrev pub by_key : String → List Transaction → Option Transaction
by_key key = find (has_key key)

-- No two wallets have one `id` (the primary key).
abbrev pub IsKeyed : List Wallet → Type 0
IsKeyed [] = Unit {0}
IsKeyed (w ∷ ws) = (wallet_by_id w.id ws ≡ none) × IsKeyed ws

-- The money in all wallets.
abbrev pub total : List Wallet → ℕ
total [] = 0
total (w ∷ ws) = w.balance + total ws
