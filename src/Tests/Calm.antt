-- ===== src/Tests/Calm.antt =====
-- The quiet database is calm: runs that succeed, and the theorems that say so.
use payment_system.Base.{◌≡◌, refl, true, none, some, inl, arith}
use payment_system.Core.Outcome.{Outcome, Returns}
use payment_system.Models.Wallet.{Wallet}
use payment_system.Models.Transaction.{Draft, passes_checks}
use payment_system.Models.Tables.{by_key, wallet_by_id}
use payment_system.Schemas.Payment.{TransactionResponse, transaction_response}
use payment_system.Store.Calm.{IsCalm}
use payment_system.Services.World.{World}
use payment_system.Schemas.Wallet.{WalletResponse}
use payment_system.Services.Wallets.{top_up}
use payment_system.Services.Wallets.Added.{ToppedUp}
use payment_system.Services.Wallets.Succeeds.{top_up_succeeds}
use payment_system.Services.Transfer.{execute_transfer}
use payment_system.Services.Transfer.Trace.{Ends, Posted}
use payment_system.Services.Transfer.Succeeds.{execute_transfer_succeeds}
use payment_system.Services.Payments.{order_of, send_money, attempts}
use payment_system.Services.Payments.Resent.{send_money_resent}
use payment_system.Services.Payments.Lost.{Lost, attempts_lose_response}
use payment_system.Services.Payments.Succeeds.{send_money_succeeds}
use payment_system.Tests.Quiet.{Local, quiet, local_insert, refreshed}
use payment_system.Tests.Texts.{marks}
use payment_system.Tests.Server.{steady, failing}
use payment_system.Tests.Transfers.{alice, bob, start, start_tables, lunch}
use payment_system.Tests.Payments.{request, entry, paid, world}

pub inserts_quietly :
    (d : Draft) (s : Local)
    → by_key d.idempotency_key s.seen.transactions ≡ none
    → passes_checks d ≡ true
    → Returns (λ _ _. Unit {0}) (local_insert d s)
inserts_quietly d s unused checked = rw (unused, checked) tt

pub rereads_quietly :
    (w r : Wallet) (s : Local)
    → wallet_by_id w.id s.seen.wallets ≡ some r
    → Returns (λ _ _. Unit {0}) (refreshed w (wallet_by_id w.id s.seen.wallets) s)
rereads_quietly w r s e = rw e tt

abbrev pub quiet_calm : IsCalm quiet
quiet_calm = record {
  alone = λ t u e. e;
  fresh = λ o w e. e;
  selects = λ p s. tt;
  locks = λ p s. tt;
  updates = λ p balance version s. tt;
  queries = λ p s. tt;
  inserts = inserts_quietly;
  commits = λ s. tt;
  refreshes = λ x s. tt;
  rereads = rereads_quietly;
  reads = λ w s. tt;
}

execute_transfer_succeeds_example :
    Returns (Ends quiet lunch start_tables start_tables) (execute_transfer quiet lunch start)
execute_transfer_succeeds_example =
    execute_transfer_succeeds quiet quiet_calm lunch alice bob start (record {
      sender = refl;
      receiver = refl;
      distinct = omega arith;
      covered = omega arith;
      positive = omega arith;
      unused = refl;
    })

send_money_succeeds_example :
    Returns {S = World Local steady.Server} {A = TransactionResponse}
      (λ r w'. Posted quiet (order_of request 2 1) start_tables r w'.session.durable)
      (send_money quiet marks steady true 12 request world)
send_money_succeeds_example =
    send_money_succeeds quiet marks steady quiet_calm (λ ks c. tt) true 12 request alice bob world
      refl (inl refl)
      (record {
        keyed = start.seen_keyed;
        sender = refl;
        receiver = refl;
        distinct = omega arith;
        covered = omega arith;
        positive = omega arith;
        unused = refl;
      })

top_up_succeeds_example :
    Returns {S = World Local steady.Server} {A = WalletResponse}
      (λ r w'. ToppedUp quiet 12 700 start_tables r w'.session.durable)
      (top_up quiet marks steady true 12 700 world)
top_up_succeeds_example =
    top_up_succeeds quiet marks steady quiet_calm true 12 700 alice world refl start.seen_keyed refl

send_money_resent_example :
    Returns {S = World Local failing.Server} {A = TransactionResponse}
      (λ r w'. (r ≡ transaction_response entry) × (w'.session.durable ≡ paid.session.durable))
      (send_money quiet marks failing true 12 request paid)
send_money_resent_example =
    send_money_resent quiet marks failing quiet_calm true 12 request entry paid refl refl (inl refl)

attempts_lose_response_example :
    Outcome {S = World Local failing.Server} {A = TransactionResponse}
      (λ _ _. ⊥)
      (Lost quiet marks failing quiet_calm (λ ks c. tt) request alice bob)
      (attempts quiet marks failing true request alice bob 3 world)
attempts_lose_response_example =
    attempts_lose_response quiet marks failing quiet_calm (λ ks c. tt) request alice bob 2 world
      (record {
        sender = refl;
        receiver = refl;
        distinct = omega arith;
        covered = omega arith;
        positive = omega arith;
        unused = refl;
      })
