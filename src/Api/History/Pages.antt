-- ===== src/Api/History/Pages.antt =====
-- What `get_transaction_history` of payment-system/app/api/v1/payments.py shows, whatever other
-- sessions commit meanwhile.
use mathlib.Core.List.{Perm}
use payment_system.Base.{
  ℕ, ◌≡◌, refl, sym, subst, ap, ◌∙◌, ◌⊎◌, inl, inr, String, Option, none, some, List, [], map, find,
  ◌==◌, count_where,
}
use payment_system.Base.Lists.{filter}
use payment_system.Core.Exec.{pure, ◌>>=◌}
use payment_system.Core.Outcome.{Outcome, Outcome-bind}
use payment_system.Models.Wallet.{Uuid, Wallet}
use payment_system.Models.Transaction.{Transaction}
use payment_system.Models.Tables.{Tables}
use payment_system.Schemas.Payment.{TransactionListResponse, transaction_response}
use payment_system.Store.Session.{Read}
use payment_system.Store.Database.{Database}
use payment_system.Store.Paging.{NewestFirst, cut, Paging}
use payment_system.Store.Repositories.{get_by_user_id, is_party, offset_of, get_by_wallet_id}
use payment_system.Store.Versioned.{Untouched}
use payment_system.Store.Shown.{Lookup, Queried, Queried-since, get_by_user_id_law}
use payment_system.Api.History.{history_of, get_transaction_history}

module _ (db : Database) (paging : Paging db) where
  open db use {Session, view, Others, others_trans}

  -- A count of a wallet's entries in some durable tables, and a page of them in later ones.
  pub record Listed (wallet_id : Uuid) (page page_size : ℕ) (d : Tables) (r : List Transaction × ℕ)
      (s' : Session) : Type 0 where
    pub counted : Tables
    pub before : Others d counted
    pub total : r.1 ≡ count_where (is_party wallet_id) counted.transactions
    pub after : Others counted (view s').durable
    pub clean : (view s').seen ≡ (view s').durable
    pub ordered : List Transaction
    pub arranged : Perm ordered (filter (is_party wallet_id) (view s').durable.transactions)
    pub newest : NewestFirst ordered
    pub rows : r.0 ≡ cut (offset_of page page_size) page_size ordered

  pub get_by_wallet_id_law :
      (wallet_id : Uuid) (page page_size : ℕ) (d : Tables) (s : Session)
      → (view s).seen ≡ (view s).durable
      → Others d (view s).durable
      → Outcome
          (Listed wallet_id page page_size d)
          (Untouched db d)
          (get_by_wallet_id db paging wallet_id page page_size s)
  unfolding get_by_wallet_id
  get_by_wallet_id_law wallet_id page page_size d s clean o =
      Outcome-bind _ (Listed wallet_id page page_size d) (Untouched db (view s).durable)
        (Untouched db d) (paging.count_transactions (is_party wallet_id) s) _
        (paging.count_transactions_law (is_party wallet_id) s) paged
        (λ e s₁ h. (h.0, others_trans _ _ _ o h.1))
    where
      paged :
          (total : ℕ) (s₁ : Session)
          → Read Others db.Shows
              (λ t. count_where (is_party wallet_id) t.transactions)
              (view s)
              total
              (view s₁)
          → Outcome (Listed wallet_id page page_size d) (Untouched db d) (
              (do
                transactions ←
                    paging.page_transactions
                      (is_party wallet_id)
                      (offset_of page page_size)
                      page_size
                pure (transactions, total))
                s₁)
      paged total s₁ c =
          let counted = (view s₁).durable in
          Outcome-bind _ (Listed wallet_id page page_size d) (Untouched db counted) (Untouched db d)
            (paging.page_transactions (is_party wallet_id) (offset_of page page_size) page_size s₁)
            _
            (paging.page_transactions_law (is_party wallet_id) (offset_of page page_size) page_size
              s₁)
            (λ transactions s₂ p. record {
              counted = counted;
              before = others_trans _ _ _ o c.ran.others;
              total =
                  c.result
                  ∙ ap (λ (t : Tables). count_where (is_party wallet_id) t.transactions)
                      (c.clean clean);
              after = p.ran.others;
              clean = p.clean (c.clean clean);
              ordered = p.ordered;
              arranged =
                  subst
                    (λ (t : Tables). Perm p.ordered (filter (is_party wallet_id) t.transactions))
                    (p.clean (c.clean clean)) p.arranged;
              newest = p.newest;
              rows = p.rows;
            })
            (λ e s₂ h. (h.0, others_trans _ _ _ (others_trans _ _ _ o c.ran.others) h.1))

  -- A page of the user's wallet, or nothing where there was no wallet.
  abbrev pub Shows : Uuid → ℕ → ℕ → Tables → TransactionListResponse → Session → Type 0
  Shows user_id page page_size d r s' =
      ((wallet : Wallet) × Queried db user_id d wallet
        × (l : List Transaction × ℕ) × Listed wallet.id page page_size d l s'
        × (r ≡ record {
          transactions = map transaction_response l.0;
          total = l.1;
          page = page;
          page_size = page_size;
        }))
      ⊎ ((t : Tables) × Others d t
          × (find (λ (w : Wallet). w.user_id == user_id) t.wallets ≡ none)
          × (r ≡ record { transactions = []; total = 0; page = page; page_size = page_size })
          × Others d (view s').durable)

  history_of_law :
      (user_id : Uuid) (page page_size : ℕ) (s : Session) (found : Option Wallet) (s₁ : Session)
      → (view s).seen ≡ (view s).durable
      → Lookup db user_id (view s) found (view s₁)
      → Outcome
          (Shows user_id page page_size (view s).durable)
          (Untouched db (view s).durable)
          (history_of db paging page page_size found s₁)
  unfolding history_of
  history_of_law user_id page page_size s none s₁ clean l =
      let same = l.clean clean in
      inr (
        (view s₁).seen,
        subst (Others (view s).durable) (sym same) l.ran.others,
        l.owned,
        refl,
        l.ran.others,
      )
  history_of_law user_id page page_size s (some w) s₁ clean l =
      Outcome-bind (Listed w.id page page_size (view s).durable)
        (Shows user_id page page_size (view s).durable) (Untouched db (view s).durable)
        (Untouched db (view s).durable) (get_by_wallet_id db paging w.id page page_size s₁) _
        (get_by_wallet_id_law w.id page page_size (view s).durable s₁ (l.clean clean) l.ran.others)
        (λ r s₂ h. inl (
          w,
          Queried-since db user_id (view s).durable (view s₁).seen w
              (subst (Others (view s).durable) (sym (l.clean clean)) l.ran.others) l.owned.2,
          r,
          h,
          refl,
        ))
        (λ e s₂ h. h)

  -- Whatever other sessions commit meanwhile, the history on a session with nothing pending shows to
  -- a user with a wallet, as the query for the user's row returned it, the asked page of all ledger entries that the wallet has a part in, newest
  -- first, as they are durable at the end, with their number as it was during the request. A user
  -- without a wallet gets an empty list. Only a library's exception is raised, and nothing is written.
  pub get_transaction_history-Shows :
      (user_id : Uuid) (page page_size : ℕ) (status : Option String) (s : Session)
      → (view s).seen ≡ (view s).durable
      → Outcome
          (Shows user_id page page_size (view s).durable)
          (Untouched db (view s).durable)
          (get_transaction_history db paging user_id page page_size status s)
  unfolding get_transaction_history
  get_transaction_history-Shows user_id page page_size status s clean =
      Outcome-bind _ (Shows user_id page page_size (view s).durable) _
        (Untouched db (view s).durable) (get_by_user_id db user_id s) _
        (get_by_user_id_law db user_id s)
        (λ found s₁ l. history_of_law user_id page page_size s found s₁ clean l) (λ e s₁ h. h)
