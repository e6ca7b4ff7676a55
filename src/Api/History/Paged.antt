-- ===== src/Api/History/Paged.antt =====
-- One page of `get_transaction_history` of payment-system/app/api/v1/payments.py on a database where
-- nothing fails and nobody else commits.
use mathlib.Core.List.{Perm}
use payment_system.Base.{
  ℕ, ◌≡◌, sym, subst, ap, ◌∙◌, String, Option, none, some, List, map, find, ◌==◌, count_where,
  length,
}
use payment_system.Base.Lists.{filter, length-filter}
use payment_system.Core.Outcome.{Returns, Outcome-both, Returns-bind}
use payment_system.Models.Wallet.{Uuid, Wallet}
use payment_system.Models.Transaction.{Transaction}
use payment_system.Models.Tables.{Tables}
use payment_system.Schemas.Payment.{TransactionListResponse, transaction_response}
use payment_system.Store.Session.{Selected}
use payment_system.Store.Database.{Database}
use payment_system.Store.Paging.{NewestFirst, cut, Paging, IsCalmPaging}
use payment_system.Store.Calm.{IsCalm, calm_select}
use payment_system.Store.Repositories.{get_by_user_id, is_party, offset_of, get_by_wallet_id}
use payment_system.Store.Versioned.{Untouched}
use payment_system.Api.History.{history_of, get_transaction_history}
use payment_system.Api.History.Pages.{Listed, get_by_wallet_id_law}

module _ (db : Database) (paging : Paging db) (calm : IsCalm db)
    (calm_paging : IsCalmPaging db paging) (user_id : Uuid) (w : Wallet) where
  open db use {Session, view, Others}

  -- The user's wallet is `w`, and nothing is pending.
  pub record Begins (s : Session) : Type 0 where
    pub clean : (view s).seen ≡ (view s).durable
    pub owner : find (λ (x : Wallet). x.user_id == user_id) (view s).seen.wallets ≡ some w

  abbrev pub entries : Tables → List Transaction
  entries t = filter (is_party w.id) t.transactions

  -- A page of some arrangement newest first.
  pub record PageOf (page page_size : ℕ) (d : Tables) (r : TransactionListResponse) (s' : Session)
      : Type 0 where
    pub ordered : List Transaction
    pub arranged : Perm ordered (entries d)
    pub newest : NewestFirst ordered
    pub response : r ≡ record {
      transactions = map transaction_response (cut (offset_of page page_size) page_size ordered);
      total = length (entries d);
      page = page;
      page_size = page_size;
    }
    pub same : (view s').durable ≡ d
    pub clean : (view s').seen ≡ (view s').durable

  listed-Returns :
      (page page_size : ℕ) (s : Session)
      → Returns (λ _ _. Unit {0}) (get_by_wallet_id db paging w.id page page_size s)
  unfolding get_by_wallet_id
  listed-Returns page page_size s =
      Returns-bind (λ _ _. Unit {0}) (λ _ _. Unit {0}) (λ _ _. ⊥)
        (paging.count_transactions (is_party w.id) s) _ (calm_paging.counts (is_party w.id) s)
        (λ total s₁ _.
          Returns-bind (λ _ _. Unit {0}) (λ _ _. Unit {0}) (λ _ _. ⊥)
            (paging.page_transactions (is_party w.id) (offset_of page page_size) page_size s₁) _
            (calm_paging.pages (is_party w.id) (offset_of page page_size) page_size s₁)
            (λ _ _ _. tt))

  PageOf-Listed :
      (page page_size : ℕ) (d : Tables) (l : List Transaction × ℕ) (s' : Session)
      → Listed db paging w.id page page_size d l s'
      → PageOf page page_size d
          (record {
            transactions = map transaction_response l.0;
            total = l.1;
            page = page;
            page_size = page_size;
          })
          s'
  PageOf-Listed page page_size d l s' k =
      let first = calm.alone _ _ k.before in
      let last : (view s').durable ≡ d = sym (first ∙ calm.alone _ _ k.after) in
      record {
        ordered = k.ordered;
        arranged = subst (λ t. Perm k.ordered (entries t)) last k.arranged;
        newest = k.newest;
        response = λ i. record {
          transactions = map transaction_response (k.rows i);
          total =
              (k.total
                  ∙ (ap (λ (t : Tables). count_where (is_party w.id) t.transactions) (sym first)
                      ∙ sym (length-filter (is_party w.id) d.transactions)))
                i;
          page = page;
          page_size = page_size;
        };
        same = last;
        clean = k.clean;
      }

  found_page :
      (page page_size : ℕ) (d : Tables) (s : Session) (found : Option Wallet)
      → found ≡ some w
      → (view s).seen ≡ (view s).durable
      → (view s).durable ≡ d
      → Returns (PageOf page page_size d) (history_of db paging page page_size found s)
  unfolding history_of
  found_page page page_size d s none e clean same = absurd (cc)
  found_page page page_size d s (some v) e clean same =
      subst (λ x. Returns (PageOf page page_size d) (history_of db paging page page_size x s))
        (sym e)
        (Returns-bind (Listed db paging w.id page page_size d) (PageOf page page_size d) (λ _ _. ⊥)
          (get_by_wallet_id db paging w.id page page_size s) _
          (Outcome-both (Listed db paging w.id page page_size d) (Untouched db d) (λ _ _. Unit {0})
            (get_by_wallet_id db paging w.id page page_size s)
            (get_by_wallet_id_law db paging w.id page page_size d s clean
              (subst (λ t. Others t (view s).durable) same (db.others_refl (view s).durable)))
            (listed-Returns page page_size s))
          (λ l s₁ k. PageOf-Listed page page_size d l s₁ k))

  pub history_page :
      (page page_size : ℕ) (status : Option String) (s : Session)
      → Begins s
      → Returns
          (PageOf page page_size (view s).durable)
          (get_transaction_history db paging user_id page page_size status s)
  unfolding get_transaction_history get_by_user_id
  history_page page page_size status s b =
      Returns-bind
        (λ found s₁.
          (found ≡ find (λ x. x.user_id == user_id) (view s).seen.wallets)
          × ((view s₁).seen ≡ (view s).seen)
          × Selected Others db.Shows (λ x. x.user_id == user_id) (view s) found (view s₁))
        (PageOf page page_size (view s).durable) (λ _ _. ⊥)
        (db.select_wallet (λ x. x.user_id == user_id) s) _
        (calm_select db calm (λ x. x.user_id == user_id) s)
        (λ found s₁ k.
          let clean = k.2.clean b.clean in
          found_page page page_size (view s).durable s₁ found (k.0 ∙ b.owner) clean
            (sym clean ∙ (k.1 ∙ b.clean)))
