-- ===== src/Api/History/Reading.antt =====
-- The pages of `get_transaction_history` of payment-system/app/api/v1/payments.py on a database where
-- nothing fails and nobody else commits.
use Prim.Native.Nat.{min}
use mathlib.Core.List.{Perm}
use payment_system.Base.{
  ℕ, ◌-◌, ◌*◌, ◌≤◌, ◌≡◌, subst, ap, String, true, Option, List, map, length, arith,
}
use payment_system.Base.Lists.{drop, length-take, length-drop, length-map, length-perm}
use payment_system.Core.Outcome.{Returns, Returns-weaken}
use payment_system.Models.Wallet.{Uuid, Wallet}
use payment_system.Models.Transaction.{Transaction}
use payment_system.Models.Tables.{Tables}
use payment_system.Schemas.Payment.{
  TransactionResponse, TransactionListResponse, transaction_response,
}
use payment_system.Store.Database.{Database}
use payment_system.Store.Paging.{cut, Paging, IsCalmPaging}
use payment_system.Store.Paging.Newest.{Dated, newest_first, newest_first_unique}
use payment_system.Store.Calm.{IsCalm}
use payment_system.Store.Repositories.{offset_of}
use payment_system.Api.History.{accepts_page, get_transaction_history}
use payment_system.Api.History.Paged.{Begins, PageOf, entries, history_page}

module _ (db : Database) (paging : Paging db) (calm : IsCalm db)
    (calm_paging : IsCalmPaging db paging) (user_id : Uuid) (w : Wallet) where
  open db use {Session, view, Others}

  length_page :
      (page page_size : ℕ) (l : List TransactionResponse) (d : Tables) (ordered : List Transaction)
      → Perm ordered (entries db paging calm calm_paging user_id w d)
      → l ≡ map transaction_response (cut (offset_of page page_size) page_size ordered)
      → length l
        ≡ min page_size
            (length (entries db paging calm calm_paging user_id w d) - (page - 1) * page_size)
  length_page page page_size l d ordered p e =
      let rows = ap length e in
      let all = length-perm p in
      omega (
        arith,
        rows,
        all,
        length-map transaction_response (cut (offset_of page page_size) page_size ordered),
        length-take page_size (drop (offset_of page page_size) ordered),
        length-drop (offset_of page page_size) ordered,
      )

  -- On a calm database, where nothing fails and nobody else commits, the history of a user with a
  -- wallet on a session with nothing pending returns for admitted numbers. Its total is the number of
  -- the wallet's ledger entries, and its length what the pages before leave of them, but at most the
  -- page's size, which is at most a hundred.
  pub get_transaction_history_bounds :
      (page page_size : ℕ) (status : Option String) (s : Session)
      → accepts_page page page_size ≡ true
      → Begins db paging calm calm_paging user_id w s
      → Returns
          (λ r s'.
            (r.total ≡ length (entries db paging calm calm_paging user_id w (view s).durable))
            × (length r.transactions ≡ min page_size (r.total - (page - 1) * page_size))
            × (length r.transactions ≤ 100))
          (get_transaction_history db paging user_id page page_size status s)
  get_transaction_history_bounds page page_size status s admitted b =
      Returns-weaken (PageOf db paging calm calm_paging user_id w page page_size (view s).durable) _
        (λ _ _. ⊥) (get_transaction_history db paging user_id page page_size status s)
        (history_page db paging calm calm_paging user_id w page page_size status s b)
        (λ r s' k.
          let size =
            length_page page page_size r.transactions (view s).durable k.ordered k.arranged
              (ap (λ (x : TransactionListResponse). x.transactions) k.response) in
          let total = ap (λ (x : TransactionListResponse). x.total) k.response in
          (total, omega (arith, size, total), ground (arith, size)))

  -- With creation times that differ the page is cut out of one list.
  pub sorted :
      (page page_size : ℕ) (d : Tables) (r : TransactionListResponse) (s' : Session)
      → Dated (entries db paging calm calm_paging user_id w d)
      → PageOf db paging calm calm_paging user_id w page page_size d r s'
      → r ≡ record {
        transactions = map transaction_response (
            cut
              (offset_of page page_size)
              page_size
              (newest_first (entries db paging calm calm_paging user_id w d)));
        total = length (entries db paging calm calm_paging user_id w d);
        page = page;
        page_size = page_size;
      }
  sorted page page_size d r s' dated k =
      let e =
        newest_first_unique (entries db paging calm calm_paging user_id w d) k.ordered dated
          k.newest k.arranged in
      subst
        (λ l. r ≡ record {
          transactions = map transaction_response (cut (offset_of page page_size) page_size l);
          total = length (entries db paging calm calm_paging user_id w d);
          page = page;
          page_size = page_size;
        })
        e k.response

  module _ (s : Session) (begins : Begins db paging calm calm_paging user_id w s)
      (dated : Dated (entries db paging calm calm_paging user_id w (view s).durable)) where
    -- On a calm database, where nothing fails and nobody else commits, and if no two ledger entries
    -- of the user's wallet were made at the same time: the history on a session with nothing pending
    -- answers with the asked cut of the list that a sort of these entries by insertion gives.
    pub get_transaction_history-newest_first :
        (page page_size : ℕ) (status : Option String)
        → Returns
            (λ r _. r ≡ record {
              transactions = map transaction_response (
                  cut
                    (offset_of page page_size)
                    page_size
                    (newest_first (entries db paging calm calm_paging user_id w (view s).durable)));
              total = length (entries db paging calm calm_paging user_id w (view s).durable);
              page = page;
              page_size = page_size;
            })
            (get_transaction_history db paging user_id page page_size status s)
    get_transaction_history-newest_first page page_size status =
        Returns-weaken (PageOf db paging calm calm_paging user_id w page page_size (view s).durable)
          _ (λ _ _. ⊥) (get_transaction_history db paging user_id page page_size status s)
          (history_page db paging calm calm_paging user_id w page page_size status s begins)
          (λ r s' k. sorted page page_size (view s).durable r s' dated k)
