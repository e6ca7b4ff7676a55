-- ===== src/Tests/Payments.antt =====
-- Runs of `send_money` and `top_up`, and their theorems at concrete inputs.
use payment_system.Base.{◌≡◌, ◌⊎◌, ◌+◌, refl, sym, ap, inl, inr, true, false, some, [], ◌∷◌}
use payment_system.Core.Exceptions.{self_transfer, unexpected}
use payment_system.Core.Exec.{ok, err}
use payment_system.Core.Outcome.{Outcome, IsUnexpected}
use payment_system.Models.Tables.{Tables, total}
use payment_system.Models.Transaction.{Transaction, completed}
use payment_system.Schemas.Payment.{PaymentRequest, TransactionResponse, transaction_response}
use payment_system.Schemas.Wallet.{WalletResponse}
use payment_system.Store.Repositories.{
  get_by_user_id, get_by_id_for_update, update_balance, create, get_by_idempotency_key,
}
use payment_system.Cache.Idempotency.{check_key, store_key}
use payment_system.Cache.Keys.{uuid_text}
use payment_system.Services.World.{World}
use payment_system.Services.Wallets.{top_up}
use payment_system.Services.Wallets.Added.{ToppedUp, Declined}
use payment_system.Services.Wallets.TopUp.{top_up_adds_once}
use payment_system.Services.Wallets.Money.{top_up_raises_total}
use payment_system.Services.Transfer.{execute_transfer}
use payment_system.Services.Payments.{send_money}
use payment_system.Services.Payments.Outcomes.{SentIn, FailedIn}
use payment_system.Services.Payments.Once.{send_money_answers}
use payment_system.Services.Payments.Money.{send_money_conserves_total}
use payment_system.Services.Payments.Repeats.{
  Repeated, Unanswered, send_money_replays, send_money_once,
}
use payment_system.Tests.Quiet.{Local, quiet}
use payment_system.Tests.Texts.{marks}
use payment_system.Tests.Server.{steady, failing, empty}
use payment_system.Tests.Transfers.{alice, bob, start, start_tables}

-- Alice's request to send 50.00 to Bob.
abbrev pub request : PaymentRequest
request = record {
  receiver_id = 11;
  amount = 5000;
  currency = "USD";
  idempotency_key = "k1";
  description = some "Lunch";
}

abbrev pub entry : Transaction
entry = record {
  id = 0;
  sender_wallet_id = 2;
  receiver_wallet_id = 1;
  amount = 5000;
  currency = "USD";
  status = completed;
  idempotency_key = "k1";
  description = some "Lunch";
  created_at = 0;
}

abbrev pub world : World quiet.Session steady.Server
world = record { session = start; server = empty }

-- The payment made once.
abbrev pub paid : World quiet.Session steady.Server
paid = record {
  session = record start {
    seen = record start_tables { transactions = entry ∷ [] };
    seen_keyed = start.seen_keyed;
    durable = record start_tables { transactions = entry ∷ [] };
    durable_keyed = start.durable_keyed;
  };
  server = empty;
}

payment : (send_money quiet marks steady true 12 request world).0 ≡ ok (transaction_response entry)
unfolding send_money execute_transfer get_by_user_id get_by_id_for_update update_balance create
    get_by_idempotency_key check_key store_key uuid_text
payment = refl

payment_to_self : (send_money quiet marks steady true 11 request world).0 ≡ err self_transfer
unfolding send_money execute_transfer get_by_user_id get_by_id_for_update update_balance create
    get_by_idempotency_key check_key store_key uuid_text
payment_to_self = refl

-- Redis fails after the commit: the call raises, and the money has moved.
payment_without_redis :
    let (r, w) = send_money quiet marks failing true 12 request world in
    (r ≡ err (unexpected 7))
    × (w.session.durable.wallets
        ≡ record alice { balance = 5000; version = 5 }
          ∷ record bob { balance = 5500; version = 2 }
          ∷ [])
unfolding send_money execute_transfer get_by_user_id get_by_id_for_update update_balance create
    get_by_idempotency_key check_key store_key uuid_text
payment_without_redis = (refl, refl)

send_money_answers_example :
    Outcome
      (SentIn quiet marks steady true 12 request start_tables)
      (FailedIn quiet marks steady true 12 request start_tables)
      (send_money quiet marks steady true 12 request world)
send_money_answers_example =
    send_money_answers quiet marks steady true 12 request world refl (inl refl)

send_money_replays_example :
    Outcome
      (Repeated quiet marks steady (transaction_response entry) paid.session.durable)
      (Unanswered quiet marks steady paid.session.durable)
      (send_money quiet marks steady true 12 request paid)
send_money_replays_example =
    send_money_replays quiet marks steady true 12 request entry paid refl refl (inl refl)

-- After Alice's payment, and once its cache entry has run out.
abbrev made : World quiet.Session steady.Server
made = (send_money quiet marks steady true 12 request world).1

abbrev aged : World quiet.Session steady.Server
aged = record made { server = empty }

send_money_once_example :
    Outcome
      (Repeated quiet marks steady (transaction_response entry) aged.session.durable)
      (Unanswered quiet marks steady aged.session.durable)
      (send_money quiet marks steady false 11 request aged)
unfolding send_money execute_transfer get_by_user_id get_by_id_for_update update_balance create
    get_by_idempotency_key check_key store_key uuid_text
send_money_once_example =
    send_money_once quiet marks steady true false 12 11 request request (transaction_response entry)
      world made aged refl refl (inl refl) refl
      (record { moved = refl; clean = refl; kept = inr (inl refl) })

top_up_adds_once_example :
    Outcome {S = World Local steady.Server} {A = WalletResponse}
      (λ r w'. ToppedUp quiet 12 700 start_tables r w'.session.durable)
      (λ e w'. Declined quiet start_tables w'.session.durable e)
      (top_up quiet marks steady true 12 700 world)
top_up_adds_once_example = top_up_adds_once quiet marks steady true 12 700 world refl

top_up_raises_total_example :
    Outcome {S = World Local steady.Server} {A = WalletResponse}
      (λ _ w'. total w'.session.durable.wallets ≡ 10500 + 700)
      (λ e w'. IsUnexpected e ⊎ (total w'.session.durable.wallets ≡ 10500))
      (top_up quiet marks steady true 12 700 world)
top_up_raises_total_example =
    top_up_raises_total quiet (λ t u e. ap (λ (x : Tables). total x.wallets) (sym e)) marks steady
      true 12 700 world refl

send_money_conserves_total_example :
    Outcome {S = World Local steady.Server} {A = TransactionResponse}
      (λ _ w'. total w'.session.durable.wallets ≡ 10500)
      (λ e w'. IsUnexpected e ⊎ (total w'.session.durable.wallets ≡ 10500))
      (send_money quiet marks steady true 12 request world)
send_money_conserves_total_example =
    send_money_conserves_total quiet (λ t u e. ap (λ (x : Tables). total x.wallets) (sym e)) marks
      steady true 12 request world refl (inl refl)
