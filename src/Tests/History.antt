-- ===== src/Tests/History.antt =====
-- The history over the quiet database: a run, and the theorems at a concrete ledger.
use mathlib.Core.List.{Perm, reverse, reverse_perm, Pairwise, not-mem-nil, mem-cons}
use mathlib.Core.List.Perm
use mathlib.Core.Logic.Or
use Prim.Native.Nat.{min}
use payment_system.Base.{
  ℕ, zero, suc, ◌-◌, ◌*◌, ◌≤◌, ◌≡◌, refl, ap, ◌∙◌, none, List, [], ◌∷◌, map, length, count_where,
  arith,
}
use payment_system.Base.Lists.{filter}
use payment_system.Core.Exec.{ok}
use payment_system.Core.Outcome.{Outcome, Returns}
use payment_system.Models.Transaction.{Transaction}
use payment_system.Models.Tables.{Tables}
use payment_system.Schemas.Payment.{
  TransactionResponse, TransactionListResponse, transaction_response,
}
use payment_system.Store.Paging.{NewestFirst, cut, Paging, IsCalmPaging}
use payment_system.Store.Paging.Newest.{
  Dated, newest_first, newest_first-perm, newest_first-NewestFirst,
}
use payment_system.Store.Repositories.{get_by_user_id, offset_of, get_by_wallet_id}
use payment_system.Store.Versioned.{Untouched}
use payment_system.Api.History.{get_transaction_history}
use payment_system.Api.History.Pages.{Shows, get_transaction_history-Shows}
use payment_system.Api.History.Paged.{Begins}
use payment_system.Api.History.Reading.{
  get_transaction_history_bounds, get_transaction_history-newest_first,
}
use payment_system.Api.History.Client.{read_pages, read_pages_all}
use payment_system.Tests.Quiet.{Local, quiet, unchanged}
use payment_system.Tests.Calm.{quiet_calm}
use payment_system.Tests.Transfers.{alice, start, start_tables}
use payment_system.Tests.Payments.{entry}

abbrev quiet_paging : Paging quiet
quiet_paging = record {
  count_transactions = λ p s. (ok (count_where p s.seen.transactions), s);
  page_transactions =
      λ p offset limit s. (ok (cut offset limit (newest_first (filter p s.seen.transactions))), s);
  count_transactions_law =
      λ p s. record { ran = unchanged s s.held (λ id h. h); clean = λ e. e; result = refl };
  page_transactions_law = λ p offset limit s. record {
    ran = unchanged s s.held (λ id h. h);
    clean = λ e. e;
    ordered = newest_first (filter p s.seen.transactions);
    arranged = newest_first-perm (filter p s.seen.transactions);
    newest = newest_first-NewestFirst (filter p s.seen.transactions);
    rows = refl;
  };
}

abbrev quiet_calm_paging : IsCalmPaging quiet quiet_paging
quiet_calm_paging = record { counts = λ p s. tt; pages = λ p offset limit s. tt }

-- Alice's second payment to Bob, made later.
abbrev dinner : Transaction
dinner = record entry { id = 1; idempotency_key = "k2"; created_at = 9 }

abbrev ledger : Tables
ledger = record start_tables { transactions = entry ∷ dinner ∷ [] }

abbrev filled : Local
filled = record start {
  seen = ledger;
  seen_keyed = start.seen_keyed;
  durable = ledger;
  durable_keyed = start.durable_keyed;
}

filled-Begins : Begins quiet quiet_paging quiet_calm quiet_calm_paging 12 alice filled
filled-Begins = record { clean = refl; owner = refl }

ledger-Dated : Dated (entry ∷ dinner ∷ [])
ledger-Dated =
    Pairwise.cons
      (λ x m.
        Or.elim (hlevel) (mem-cons.0 m)
          (λ e h.
            let times : ◌≡◌ {A = ℕ} 0 9 = h ∙ ap (λ (y : Transaction). y.created_at) e in
            absurd (omega arith))
          (λ none_left. absurd (not-mem-nil none_left)))
      (Pairwise.cons (λ x m. absurd (not-mem-nil m)) Pairwise.nil)

second_page :
    (get_transaction_history quiet quiet_paging 12 2 1 none filled).0
    ≡ ok (record {
      transactions = transaction_response entry ∷ [];
      total = 2;
      page = 2;
      page_size = 1;
    })
unfolding get_transaction_history get_by_user_id get_by_wallet_id newest_first
second_page = refl

get_transaction_history-Shows_example :
    Outcome {S = Local} {A = TransactionListResponse}
      (Shows quiet quiet_paging 12 2 1 ledger)
      (Untouched quiet ledger)
      (get_transaction_history quiet quiet_paging 12 2 1 none filled)
get_transaction_history-Shows_example =
    get_transaction_history-Shows quiet quiet_paging 12 2 1 none filled refl

get_transaction_history_bounds_example :
    Returns {S = Local} {A = TransactionListResponse}
      (λ r s'.
        (r.total ≡ length (entry ∷ dinner ∷ []))
        × (length r.transactions ≡ min 1 (r.total - (2 - 1) * 1))
        × (length r.transactions ≤ 100))
      (get_transaction_history quiet quiet_paging 12 2 1 none filled)
get_transaction_history_bounds_example =
    get_transaction_history_bounds quiet quiet_paging quiet_calm quiet_calm_paging 12 alice 2 1 none
      filled refl filled-Begins

get_transaction_history-newest_first_example :
    Returns {S = Local} {A = TransactionListResponse}
      (λ r _. r ≡ record {
        transactions =
            map transaction_response (cut (offset_of 2 1) 1 (newest_first (entry ∷ dinner ∷ [])));
        total = length (entry ∷ dinner ∷ []);
        page = 2;
        page_size = 1;
      })
      (get_transaction_history quiet quiet_paging 12 2 1 none filled)
get_transaction_history-newest_first_example =
    get_transaction_history-newest_first quiet quiet_paging quiet_calm quiet_calm_paging 12 alice
      filled filled-Begins ledger-Dated 2 1 none

read_pages_all_example :
    Returns {S = Local} {A = List TransactionResponse}
      (λ l _.
        (ordered : List Transaction) × Perm ordered (entry ∷ dinner ∷ [])
        × NewestFirst ordered
        × (l ≡ map transaction_response ordered))
      (read_pages quiet quiet_paging 12 1 2 0 filled)
read_pages_all_example =
    read_pages_all quiet quiet_paging quiet_calm quiet_calm_paging 12 1 alice 2 filled filled-Begins
      ledger-Dated (omega arith)

-- A database that turns entries of one time round on the second page: it meets the laws too.
abbrev turned : ℕ → List Transaction → List Transaction
turned zero l = newest_first l
turned (suc n) l = newest_first (reverse l)

turned-perm : (n : ℕ) (l : List Transaction) → Perm (turned n l) l
turned-perm zero l = newest_first-perm l
turned-perm (suc n) l = Perm.trans (newest_first-perm (reverse l)) (reverse_perm l)

turned-NewestFirst : (n : ℕ) (l : List Transaction) → NewestFirst (turned n l)
turned-NewestFirst zero l = newest_first-NewestFirst l
turned-NewestFirst (suc n) l = newest_first-NewestFirst (reverse l)

abbrev turning : Paging quiet
turning = record {
  count_transactions = quiet_paging.count_transactions;
  page_transactions =
      λ p offset limit s. (ok (cut offset limit (turned offset (filter p s.seen.transactions))), s);
  count_transactions_law = quiet_paging.count_transactions_law;
  page_transactions_law = λ p offset limit s. record {
    ran = unchanged s s.held (λ id h. h);
    clean = λ e. e;
    ordered = turned offset (filter p s.seen.transactions);
    arranged = turned-perm offset (filter p s.seen.transactions);
    newest = turned-NewestFirst offset (filter p s.seen.transactions);
    rows = refl;
  };
}

-- Two payments at the same time: both pages show the first one.
abbrev twins : Tables
twins = record start_tables { transactions = entry ∷ record dinner { created_at = 0 } ∷ [] }

abbrev twin_session : Local
twin_session = record start {
  seen = twins;
  seen_keyed = start.seen_keyed;
  durable = twins;
  durable_keyed = start.durable_keyed;
}

pages_repeat :
    (read_pages quiet turning 12 1 2 0 twin_session).0
    ≡ ok (transaction_response entry ∷ transaction_response entry ∷ [])
unfolding get_transaction_history get_by_user_id get_by_wallet_id newest_first
pages_repeat = refl
