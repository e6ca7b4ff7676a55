-- ===== src/Api/Transactions/Access.antt =====
-- Who gets to see a transaction through `get_transaction` of
-- payment-system/app/api/v1/payments.py.
use payment_system.Base.{
  ◌≡◌, ◌≢◌, refl, sym, ◌⊎◌, inl, inr, Option, none, some, find, ◌==◌, Bool-cases, arith,
}
use payment_system.Core.Exceptions.{Exception, http}
use payment_system.Core.Exec.{or_raise, ◌>>=◌}
use payment_system.Core.Outcome.{IsLibrary, Outcome, Outcome-bind}
use payment_system.Models.Wallet.{Uuid, Wallet}
use payment_system.Models.Transaction.{Transaction}
use payment_system.Models.Tables.{Tables}
use payment_system.Schemas.Payment.{TransactionResponse, transaction_response}
use payment_system.Store.Session.{Read}
use payment_system.Store.Database.{Database}
use payment_system.Store.Repositories.{get_by_user_id}
use payment_system.Store.Shown.{Lookup, Queried, Queried-since, get_by_user_id_law}
use payment_system.Api.Transactions.{is_stranger, show_to, get_transaction}

module _ (db : Database) (transaction_id user_id : Uuid) where
  open db use {Session, view, Others, others_trans}

  -- The user's wallet and the transaction with the id, as the queries found them.
  pub record Asked (t : Tables) (wallet : Wallet) (txn : Transaction) (s' : Session) : Type 0 where
    pub owner : Queried db user_id t wallet
    pub found :
        find (λ (x : Transaction). x.id == transaction_id) (view s').seen.transactions ≡ some txn

  abbrev pub Granted : Tables → Tables → TransactionResponse → Session → Type 0
  Granted t d r s' =
      (wallet : Wallet) × (txn : Transaction) × Asked t wallet txn s'
      × ((txn.sender_wallet_id ≡ wallet.id) ⊎ (txn.receiver_wallet_id ≡ wallet.id))
      × (r ≡ transaction_response txn)
      × Others d (view s').durable

  -- A 403 for a transaction of others, a 404 for a wallet or a transaction that is not there, or a
  -- library's exception.
  abbrev pub Withheld : Tables → Tables → Exception → Session → Type 0
  Withheld t d e s' =
      (((wallet : Wallet) × (txn : Transaction) × Asked t wallet txn s'
          × (txn.sender_wallet_id ≢ wallet.id)
          × (txn.receiver_wallet_id ≢ wallet.id)
          × (e ≡ http 403 "Not authorized to view this transaction"))
        ⊎ (((u : Tables) × Others t u
              × (find (λ (w : Wallet). w.user_id == user_id) u.wallets ≡ none)
              × (e ≡ http 404 "Wallet not found"))
            ⊎ (((find (λ (x : Transaction). x.id == transaction_id) (view s').seen.transactions
                    ≡ none)
                  × (e ≡ http 404 "Transaction not found"))
                ⊎ IsLibrary e)))
      × Others d (view s').durable

  show_to_law :
      (t d : Tables) (wallet : Wallet) (txn : Transaction) (s : Session)
      → Asked t wallet txn s
      → Others d (view s).durable
      → Outcome (Granted t d) (Withheld t d) (show_to db wallet txn s)
  unfolding show_to
  show_to_law t d wallet txn s a o = elim (Bool-cases (is_stranger wallet txn)) [
    | inl stranger ↦ rw stranger (inl (wallet, txn, a, ground arith, ground arith, refl), o)
    | inr party ↦ rw party (wallet, txn, a, ground arith, refl, o)
  ]

  wallet_law :
      (s : Session)
      → Outcome
          (λ wallet s'.
            Queried db user_id (view s).seen wallet × Others (view s).durable (view s').durable)
          (Withheld (view s).seen (view s).durable)
          ((do found ← get_by_user_id db user_id; or_raise (http 404 "Wallet not found") found) s)
  wallet_law s =
      Outcome-bind _ _ _ (Withheld (view s).seen (view s).durable) (get_by_user_id db user_id s) _
        (get_by_user_id_law db user_id s) found (λ e s' h. (inr (inr (inr h.0)), h.1))
    where
      found :
          (r : Option Wallet) (s' : Session)
          → Lookup db user_id (view s) r (view s')
          → Outcome
              (λ wallet s'.
                Queried db user_id (view s).seen wallet × Others (view s).durable (view s').durable)
              (Withheld (view s).seen (view s).durable)
              (or_raise (http 404 "Wallet not found") r s')
      found none s' l = (inr (inl ((view s').seen, l.ran.arrived, l.owned, refl)), l.ran.others)
      found (some w) s' l = (
        Queried-since db user_id (view s).seen (view s').seen w l.ran.arrived l.owned.2,
        l.ran.others,
      )

  transaction_law :
      (t d : Tables) (wallet : Wallet) (s : Session)
      → Queried db user_id t wallet
      → Others d (view s).durable
      → Outcome
          (λ txn s'. Asked t wallet txn s' × Others d (view s').durable)
          (Withheld t d)
          ((do
            found ← db.select_transaction (λ x. x.id == transaction_id)
            or_raise (http 404 "Transaction not found") found)
            s)
  transaction_law t d wallet s owner o =
      Outcome-bind _ _ _ (Withheld t d) (db.select_transaction (λ x. x.id == transaction_id) s) _
        (db.select_transaction_law (λ x. x.id == transaction_id) s) found
        (λ e s' h. (inr (inr (inr h.0)), others_trans _ _ _ o h.1))
    where
      found :
          (r : Option Transaction) (s' : Session)
          → Read Others db.Shows
              (λ t. find (λ (x : Transaction). x.id == transaction_id) t.transactions)
              (view s)
              r
              (view s')
          → Outcome
              (λ txn s'. Asked t wallet txn s' × Others d (view s').durable)
              (Withheld t d)
              (or_raise (http 404 "Transaction not found") r s')
      found none s' l = (inr (inr (inl (sym l.result, refl))), others_trans _ _ _ o l.ran.others)
      found (some x) s' l =
          (record { owner = owner; found = sym l.result }, others_trans _ _ _ o l.ran.others)

  -- A transaction is shown only to the owner of one of its two wallets, as the query for the user's row
  -- returned it; another user gets a 403, and a 404 answers a user without a wallet or an id that no
  -- transaction has. The request writes nothing.
  pub get_transaction_authorized :
      (s : Session)
      → Outcome
          (Granted (view s).seen (view s).durable)
          (Withheld (view s).seen (view s).durable)
          (get_transaction db transaction_id user_id s)
  unfolding get_transaction
  get_transaction_authorized s =
      let t = (view s).seen in
      let d = (view s).durable in
      Outcome-bind (λ wallet s'. Queried db user_id t wallet × Others d (view s').durable)
        (Granted t d) (Withheld t d) (Withheld t d) _ _ (wallet_law s)
        (λ wallet s₁ w.
          Outcome-bind (λ txn s'. Asked t wallet txn s' × Others d (view s').durable) (Granted t d)
            (Withheld t d) (Withheld t d) _ _ (transaction_law t d wallet s₁ w.0 w.1)
            (λ txn s₂ k. show_to_law t d wallet txn s₂ k.0 k.1) (λ e s₂ h. h))
        (λ e s₁ h. h)
