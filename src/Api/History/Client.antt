-- ===== src/Api/History/Client.antt =====
-- A client that reads the pages of `get_transaction_history` of
-- payment-system/app/api/v1/payments.py one after another.
use mathlib.Core.Path.{ap₂}
use mathlib.Core.List.{Perm, ◌++◌, map-append}
use native.Mathlib.Nat.{zero-mul}
use payment_system.Base.{
  ℕ, zero, suc, ◌+◌, ◌-◌, ◌*◌, ◌≤◌, ◌≡◌, refl, sym, subst, ap, ◌∙◌, none, some, find, ◌==◌, List,
  [], map, length, arith,
}
use payment_system.Base.Lists.{take, drop, drop-drop, take-append-take, take_all, length-perm}
use payment_system.Core.Exec.{Exec, pure, ◌>>=◌}
use payment_system.Core.Outcome.{Returns, Returns-bind, Returns-weaken}
use payment_system.Models.Wallet.{Uuid, Wallet}
use payment_system.Models.Transaction.{Transaction}
use payment_system.Models.Tables.{Tables}
use payment_system.Schemas.Payment.{
  TransactionResponse, TransactionListResponse, transaction_response,
}
use payment_system.Store.Database.{Database}
use payment_system.Store.Paging.{NewestFirst, cut, Paging, IsCalmPaging}
use payment_system.Store.Paging.Newest.{
  Dated, newest_first, newest_first-perm, newest_first-NewestFirst,
}
use payment_system.Store.Calm.{IsCalm}
use payment_system.Store.Repositories.{offset_of}
use payment_system.Api.History.{get_transaction_history}
use payment_system.Api.History.Paged.{Begins, PageOf, entries, history_page}
use payment_system.Api.History.Reading.{sorted}

module _ (db : Database) (paging : Paging db) (user_id : Uuid) (page_size : ℕ) where
  -- `count` pages, after the first `read` ones.
  abbrev pub read_pages : ℕ → ℕ → Exec db.Session (List TransactionResponse)
  read_pages zero read = pure []
  read_pages (suc count) read = do
    page ← get_transaction_history db paging user_id (read + 1) page_size none
    rest ← read_pages count (read + 1)
    pure (page.transactions ++ rest)

module _ (db : Database) (paging : Paging db) (calm : IsCalm db)
    (calm_paging : IsCalmPaging db paging) (user_id page_size : ℕ) (w : Wallet) where
  open db use {Session, view}

  abbrev window : ℕ → ℕ → List Transaction → List TransactionResponse
  window count read l =
      map transaction_response (take (count * page_size) (drop (read * page_size) l))

  window_step :
      (count read : ℕ) (l : List Transaction)
      → map transaction_response (cut (offset_of (read + 1) page_size) page_size l)
          ++ window count (read + 1) l
        ≡ window (suc count) read l
  window_step count read l =
      let offset : (read + 1 - 1) * page_size ≡ read * page_size =
        ap (λ n. n * page_size) (omega arith) in
      let next : (read + 1) * page_size ≡ read * page_size + page_size = grind arith in
      let all : suc count * page_size ≡ page_size + count * page_size = grind arith in
      rw (offset, next, all)
        (sym (
            map-append transaction_response (take page_size (drop (read * page_size) l))
              (take (count * page_size) (drop (read * page_size + page_size) l)))
          ∙ ap (map transaction_response) (
              ap
                (λ rest.
                  take page_size (drop (read * page_size) l) ++ take (count * page_size) rest)
                (sym (drop-drop (read * page_size) page_size l))
              ∙ take-append-take page_size (count * page_size) (drop (read * page_size) l)))

  Begins-PageOf :
      (page : ℕ) (r : TransactionListResponse) (s s' : Session)
      → Begins db paging calm calm_paging user_id w s
      → PageOf db paging calm calm_paging user_id w page page_size (view s).durable r s'
      → Begins db paging calm calm_paging user_id w s'
  Begins-PageOf page r s s' b k = record {
    clean = k.clean;
    owner =
        subst (λ (t : Tables). find (λ (x : Wallet). x.user_id == user_id) t.wallets ≡ some w)
          (sym (k.clean ∙ (k.same ∙ sym b.clean))) b.owner;
  }

  page_rows :
      (page : ℕ) (d' d : Tables) (r : TransactionListResponse) (s' : Session)
      → d' ≡ d
      → Dated (entries db paging calm calm_paging user_id w d)
      → PageOf db paging calm calm_paging user_id w page page_size d' r s'
      → r.transactions
        ≡ map transaction_response (
            cut
              (offset_of page page_size)
              page_size
              (newest_first (entries db paging calm calm_paging user_id w d)))
  page_rows page d' d r s' same dated k =
      ap (λ (x : TransactionListResponse). x.transactions)
        (sorted db paging calm calm_paging user_id w page page_size d r s' dated
          (subst (λ t. PageOf db paging calm calm_paging user_id w page page_size t r s') same k))

  read_pages-window :
      (count read : ℕ) (d : Tables) (s : Session)
      → Begins db paging calm calm_paging user_id w s
      → (view s).durable ≡ d
      → Dated (entries db paging calm calm_paging user_id w d)
      → Returns
          (λ l _.
            l ≡ window count read (newest_first (entries db paging calm calm_paging user_id w d)))
          (read_pages db paging user_id page_size count read s)
  read_pages-window zero read d s b same dated = rw (zero-mul page_size) refl
  read_pages-window (suc count) read d s b same dated =
      Returns-bind
        (PageOf db paging calm calm_paging user_id w (read + 1) page_size (view s).durable) _
        (λ _ _. ⊥) (get_transaction_history db paging user_id (read + 1) page_size none s) _
        (history_page db paging calm calm_paging user_id w (read + 1) page_size none s b)
        (λ r s₁ k.
          Returns-bind _ _ (λ _ _. ⊥) (read_pages db paging user_id page_size count (read + 1) s₁) _
            (read_pages-window count (read + 1) d s₁ (Begins-PageOf (read + 1) r s s₁ b k)
              (k.same ∙ same) dated)
            (λ rest s₂ e.
              ap₂ ◌++◌ (page_rows (read + 1) _ d r s₁ same dated k) e
              ∙ window_step count read
                  (newest_first (entries db paging calm calm_paging user_id w d))))

  whole :
      (count : ℕ) (l : List Transaction)
      → length l ≤ count * page_size
      → window count 0 l ≡ map transaction_response l
  whole count l enough =
      rw (zero-mul page_size)
        (ap (map transaction_response) (take_all (count * page_size) l enough))

  -- On a calm database, where nothing fails and nobody else commits, and if no two ledger entries of
  -- the user's wallet were made at the same time: a client that reads the pages one after another,
  -- enough of them for the number of these entries, gets every entry once, newest first.
  pub read_pages_all :
      (count : ℕ) (s : Session)
      → Begins db paging calm calm_paging user_id w s
      → Dated (entries db paging calm calm_paging user_id w (view s).durable)
      → length (entries db paging calm calm_paging user_id w (view s).durable) ≤ count * page_size
      → Returns
          (λ l _.
            (ordered : List Transaction) × Perm ordered
              (entries db paging calm calm_paging user_id w (view s).durable)
            × NewestFirst ordered
            × (l ≡ map transaction_response ordered))
          (read_pages db paging user_id page_size count 0 s)
  read_pages_all count s b dated enough =
      let d = (view s).durable in
      let all = entries db paging calm calm_paging user_id w d in
      Returns-weaken (λ l _. l ≡ window count 0 (newest_first all)) _ (λ _ _. ⊥)
        (read_pages db paging user_id page_size count 0 s)
        (read_pages-window count 0 d s b refl dated)
        (λ l s' e. (
          newest_first all,
          newest_first-perm all,
          newest_first-NewestFirst all,
          e ∙ whole count (newest_first all) (omega (arith, length-perm (newest_first-perm all))),
        ))
