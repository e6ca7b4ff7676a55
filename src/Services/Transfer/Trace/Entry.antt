-- ===== src/Services/Transfer/Trace/Entry.antt =====
-- From the credit on: the ledger entry, the commit and the response of `_execute_transfer` in
-- payment-system/app/services/payment_service.py.
use payment_system.Base.{◌≡◌, ◌⊎◌, inl, inr, sym, ap, subst, ◌∙◌, none, some, ◌∷◌}
use payment_system.Core.Outcome.{
  IsLibrary, IsUnexpected, Unexpected-IsLibrary, Outcome, Outcome-bind,
}
use payment_system.Models.Wallet.{Uuid, Wallet}
use payment_system.Models.Transaction.{Transaction}
use payment_system.Models.Tables.{Tables, wallet_by_id, by_key}
use payment_system.Schemas.Payment.{transaction_response}
use payment_system.Store.Session.{View, Follows, Recorded, Committed}
use payment_system.Store.Database.{Database}
use payment_system.Store.Repositories.{create}
use payment_system.Store.Follows.{Follows-trans, Follows-entry}
use payment_system.Store.Versioned.{Untouched}
use payment_system.Store.Steps.{Kept}
use payment_system.Services.Transfer.{Order, draft_of, record_transfer}
use payment_system.Services.Transfer.Trace.{
  Posted, library-Refused, Ends, Raises, Credited, Credited-Follows,
}

module _ (db : Database) (o : Order) (from d : Tables) (sender receiver : Wallet) where
  open db use {Session, view, Others, Shows, others_trans, others_Follows}

  Recorded-Kept :
      {x : Transaction} {v v' : View} {id : Uuid} {w : Wallet}
      → Recorded Others Shows (draft_of o sender receiver) v x v'
      → Kept db v id w
      → Kept db v' id w
  Recorded-Kept {id} e h = record {
    lock = e.ran.still id h.lock;
    found = rw e.written (e.ran.kept id h.lock ∙ h.found);
  }

  -- The row of a locked wallet in the tables that the commit publishes.
  published_row :
      {v v' : View} {id : Uuid} {w : Wallet}
      → Committed Others Shows v v'
      → Kept db v id w
      → wallet_by_id id v'.durable.wallets ≡ some w
  published_row {id} c h = rw c.durable (c.kept id h.lock ∙ h.found)

  Entry-Follows :
      {v v₁ : View} {x : Transaction}
      → Credited db o from d sender receiver v
      → Recorded Others Shows (draft_of o sender receiver) v x v₁
      → Follows from v₁.seen
  Entry-Follows {v} {x = x} c e =
      Follows-trans _ _ _ (Credited-Follows db o from d sender receiver v c) (
        Follows-trans _ _ _ (others_Follows _ _ e.ran.arrived) (
          subst (Follows e.before) (sym e.written) (
            Follows-entry x e.before (
              subst (λ y. by_key y.idempotency_key e.before.transactions ≡ none) (sym e.row)
                e.unique))))

  Committed-Follows :
      {v v₁ v₂ : View} {x : Transaction} {to : Tables}
      → Credited db o from d sender receiver v
      → Recorded Others Shows (draft_of o sender receiver) v x v₁
      → Committed Others Shows v₁ v₂
      → Others v₂.durable to
      → Follows from to
  Committed-Follows {v₁} c e k later = Follows-trans _ _ _ (Entry-Follows c e) (
      others_Follows _ _
        (others_trans _ _ _ (subst (Others v₁.seen) (sym k.durable) k.arrived) later))

  -- A commit that raised: nothing of this session is durable, or all of it.
  attempted :
      {v v₁ : View} {x : Transaction} {to : Tables} {U : Type 0}
      → Credited db o from d sender receiver v
      → Recorded Others Shows (draft_of o sender receiver) v x v₁
      → Others v₁.durable to ⊎ (U × Others v₁.seen to)
      → Others d to ⊎ (U × Follows from to)
  attempted c e (inl same) =
      inl (others_trans _ _ _ c.durable (others_trans _ _ _ e.ran.others same))
  attempted c e (inr (u, reached)) =
      inr (u, Follows-trans _ _ _ (Entry-Follows c e) (others_Follows _ _ reached))

  posted :
      {v v₁ v₂ : View} {x y : Transaction} {to : Tables}
      → Credited db o from d sender receiver v
      → Recorded Others Shows (draft_of o sender receiver) v x v₁
      → Committed Others Shows v₁ v₂
      → y ≡ x
      → Others v₂.durable to
      → Posted db o from (transaction_response y) to
  posted {v} {v₁} {v₂} c e k same later = record {
    sender = sender;
    receiver = receiver;
    sender_id = c.was.was.sender_id;
    receiver_id = c.was.was.receiver_id;
    covered = c.was.was.covered;
    start = c.was.ready.seen;
    begun = c.was.was.begun;
    after_debit = c.middle.seen;
    debit = c.was.debit;
    after_credit = v.seen;
    credit = c.credit;
    before_entry = e.before;
    arrived = e.ran.arrived;
    id = e.id;
    now = e.now;
    unique = e.unique;
    checked = e.checked;
    committed = v₂.durable;
    published =
        subst
          (λ y. Others (record e.before { transactions = y ∷ e.before.transactions }) v₂.durable)
          e.row
          (subst (λ t. Others t v₂.durable) e.written
            (subst (Others v₁.seen) (sym k.durable) k.arrived));
    sender_row = published_row k (Recorded-Kept e c.sender_row);
    receiver_row = published_row k (Recorded-Kept e c.receiver_row);
    later = later;
    response = ap transaction_response (same ∙ e.row);
  }

  -- From the credit on: the entry, the commit and the response.
  pub record_transfer_law :
      (s : Session)
      → Credited db o from d sender receiver (view s)
      → Outcome (Ends db o from d) (Raises db o from d) (record_transfer db o sender receiver s)
  unfolding record_transfer create
  record_transfer_law s c =
      Outcome-bind _ _ (Untouched db (view s).durable) _ (db.insert_transaction _ s) _
        (db.insert_transaction_law _ s)
        (λ x s₁ e.
          Outcome-bind _ _
            (λ err s₂.
              IsLibrary err
              × (Others (view s₁).durable (view s₂).durable
                  ⊎ (IsUnexpected err × Others (view s₁).seen (view s₂).durable)))
            _ (db.commit s₁) _ (db.commit_law s₁)
            (λ _ s₂ k.
              Outcome-bind (λ y s₃. (y ≡ x) × Others (view s₂).durable (view s₃).durable) _
                (λ err s₃. IsUnexpected err × Others (view s₂).durable (view s₃).durable) _
                (db.refresh_transaction x s₂) _ (db.refresh_transaction_law x s₂)
                (λ y s₃ f. posted c e k f.0 f.1)
                (λ err s₃ h.
                  library-Refused db o from d _ err (Unexpected-IsLibrary err h.0)
                    (inr (h.0, Committed-Follows c e k h.1))))
            (λ err s₂ h. library-Refused db o from d _ err h.0 (attempted c e h.1)))
        (λ err s₁ h. library-Refused db o from d _ err h.0 (inl (others_trans _ _ _ c.durable h.1)))
