-- ===== src/Tests/Requests.antt =====
-- The theorems on request handlers, the rate limit and the balance at concrete inputs.
use payment_system.Base.{ℕ, ◌≡◌, refl, true, String, none}
use payment_system.Core.Exceptions.{insufficient_balance}
use payment_system.Core.Exec.{ok}
use payment_system.Core.Outcome.{Outcome, Returns}
use payment_system.Models.Wallet.{Wallet}
use payment_system.Schemas.Payment.{TransactionResponse, transaction_response}
use payment_system.Schemas.Wallet.{WalletResponse, wallet_response}
use payment_system.Store.Repositories.{get_by_user_id}
use payment_system.Cache.Keys.{rate_limit_key}
use payment_system.Cache.Manager.{check_rate_limit}
use payment_system.Cache.Limiter.{Request, limit}
use payment_system.Cache.Limiter.Window.{
  Judged, Passed, Refused, check_rate_limit-Judged, limit-Refused,
}
use payment_system.Cache.Limiter.Lockout.{IsLasting, answers, rulings, limit_locks_out}
use payment_system.Services.World.{World}
use payment_system.Services.Wallets.{get_wallet, get_balance_fast}
use payment_system.Services.Wallets.Balance.{
  Answered, NotFound, get_wallet_current, get_balance_fast_current,
}
use payment_system.Api.Errors.{respond}
use payment_system.Api.Errors.Codes.{Answers, respond-Answers}
use payment_system.Api.Transactions.{get_transaction}
use payment_system.Api.Transactions.Access.{Granted, Withheld, get_transaction_authorized}
use payment_system.Tests.Quiet.{Local, quiet}
use payment_system.Tests.Texts.{marks}
use payment_system.Tests.Server.{steady, steady_steady, empty, expireless}
use payment_system.Tests.Transfers.{start_tables}
use payment_system.Tests.Payments.{entry, paid, world}

check_rate_limit-Judged_example :
    Returns {S = steady.Server}
      (Judged marks steady steady_steady (rate_limit_key "10.0.0.1" "/send") 20 empty)
      (check_rate_limit marks steady "10.0.0.1" "/send" 20 empty)
check_rate_limit-Judged_example =
    check_rate_limit-Judged marks steady steady_steady "10.0.0.1" "/send" 20 empty

abbrev visit : Request
visit = record { user_id = none; host = "10.0.0.1"; path = "/send" }

abbrev too_many : ℕ → String
too_many n = "Rate limit exceeded"

limit-Refused_example :
    Outcome {S = steady.Server}
      (λ _ s'. Passed marks steady steady_steady (rate_limit_key "10.0.0.1" "/send") 0 empty s')
      (Refused marks steady steady_steady (rate_limit_key "10.0.0.1" "/send") 0 too_many empty)
      (limit marks steady too_many 0 visit empty)
limit-Refused_example = limit-Refused marks steady steady_steady too_many 0 visit empty

abbrev lasting : IsLasting steady
lasting = record { counts = λ k s endless first. refl }

limit_locks_out_example :
    answers marks steady too_many 2 visit 9 expireless ≡ rulings marks steady too_many 2 visit 2 9
limit_locks_out_example =
    limit_locks_out marks steady lasting too_many 2 visit 9 0 expireless
      (record { counted = refl; endless = refl })

get_wallet_current_example :
    Outcome {S = World Local steady.Server} {A = WalletResponse}
      (λ r w'.
        (o : Wallet) × (amount : ℕ) × Answered quiet marks steady 12 start_tables empty o amount w'
        × (r ≡ wallet_response (record o { balance = amount })))
      (NotFound quiet marks steady 12 start_tables)
      (get_wallet quiet marks steady true 12 world)
get_wallet_current_example = get_wallet_current quiet marks steady true 12 world refl

get_balance_fast_current_example :
    Outcome {S = World Local steady.Server} {A = ℕ}
      (λ amount w'. (o : Wallet) × Answered quiet marks steady 12 start_tables empty o amount w')
      (NotFound quiet marks steady 12 start_tables)
      (get_balance_fast quiet marks steady true 12 world)
get_balance_fast_current_example = get_balance_fast_current quiet marks steady true 12 world refl

abbrev price : ℕ → String
price n = "1.00"

respond-Answers_example :
    Answers (insufficient_balance 100 200) "r1" (respond price "r1" (insufficient_balance 100 200))
respond-Answers_example = respond-Answers price "r1" (insufficient_balance 100 200)

bob_sees_lunch : (get_transaction quiet 0 11 paid.session).0 ≡ ok (transaction_response entry)
unfolding get_transaction get_by_user_id
bob_sees_lunch = refl

get_transaction_authorized_example :
    Outcome {S = Local} {A = TransactionResponse}
      (Granted quiet 0 12 paid.session.seen paid.session.durable)
      (Withheld quiet 0 12 paid.session.seen paid.session.durable)
      (get_transaction quiet 0 12 paid.session)
get_transaction_authorized_example = get_transaction_authorized quiet 0 12 paid.session
