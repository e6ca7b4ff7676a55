-- ===== src/Tests/Transfers.antt =====
-- Transfers over the quiet database: runs, and the theorems about them at a concrete transfer.
use payment_system.Base.{◌≡◌, ◌⊎◌, refl, sym, false, some, [], ◌∷◌, ap, arith}
use payment_system.Core.Exceptions.{insufficient_balance}
use payment_system.Core.Exec.{err}
use payment_system.Core.Outcome.{IsUnexpected, Outcome}
use payment_system.Models.Wallet.{Wallet}
use payment_system.Models.Tables.{Tables, total}
use payment_system.Schemas.Payment.{TransactionResponse}
use payment_system.Store.Session.{Follows}
use payment_system.Store.Repositories.{get_by_id_for_update, update_balance, create}
use payment_system.Services.Transfer.{Order, execute_transfer}
use payment_system.Services.Transfer.Trace.{Ends, Raises}
use payment_system.Services.Transfer.Trace.Locks.{execute_transfer_posts_or_leaves}
use payment_system.Services.Transfer.Money.{
  execute_transfer-Follows, execute_transfer_conserves_total,
}
use payment_system.Tests.Quiet.{Local, quiet}

abbrev pub alice : Wallet
alice = record {
  id = 2;
  user_id = 12;
  balance = 10000;
  currency = "USD";
  version = 4;
  created_at = 0;
  updated_at = 0;
}

abbrev pub bob : Wallet
bob = record alice { id = 1; user_id = 11; balance = 500; version = 1 }

abbrev pub start_tables : Tables
start_tables = record { users = []; wallets = alice ∷ bob ∷ []; transactions = [] }

abbrev pub start : Local
start = record {
  seen = start_tables;
  seen_keyed = (refl, (refl, tt));
  durable = start_tables;
  durable_keyed = (refl, (refl, tt));
  held = λ _. false;
}

-- Alice's 50.00 to Bob.
abbrev pub lunch : Order
lunch = record {
  sender_wallet_id = 2;
  receiver_wallet_id = 1;
  amount = 5000;
  currency = "USD";
  idempotency_key = "k1";
  description = some "Lunch";
}

lunch_balances :
    let t = (execute_transfer quiet lunch start).1.durable in
    t.wallets
    ≡ record alice { balance = 5000; version = 5 } ∷ record bob { balance = 5500; version = 2 } ∷ []
unfolding execute_transfer get_by_id_for_update update_balance create
lunch_balances = refl

overdraft :
    (execute_transfer quiet (record lunch { amount = 10001 }) start).0
    ≡ err (insufficient_balance 10000 10001)
unfolding execute_transfer get_by_id_for_update update_balance create
overdraft = refl

execute_transfer_posts_or_leaves_example :
    Outcome
      (Ends quiet lunch start_tables start_tables)
      (Raises quiet lunch start_tables start_tables)
      (execute_transfer quiet lunch start)
execute_transfer_posts_or_leaves_example =
    execute_transfer_posts_or_leaves quiet lunch start (omega arith)

execute_transfer-Follows_example :
    Outcome
      (λ _ s'. Follows start_tables s'.durable)
      (λ _ s'. (start_tables ≡ s'.durable) ⊎ Follows start_tables s'.durable)
      (execute_transfer quiet lunch start)
execute_transfer-Follows_example = execute_transfer-Follows quiet lunch start (omega arith)

execute_transfer_conserves_total_example :
    Outcome {S = Local} {A = TransactionResponse}
      (λ _ s'. total s'.durable.wallets ≡ 10500)
      (λ e s'. IsUnexpected e ⊎ (total s'.durable.wallets ≡ 10500))
      (execute_transfer quiet lunch start)
execute_transfer_conserves_total_example =
    execute_transfer_conserves_total quiet lunch
      (λ t u e. ap (λ (x : Tables). total x.wallets) (sym e)) start (omega arith)
