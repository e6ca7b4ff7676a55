-- ===== src/Tests/Quiet.antt =====
-- A database with a single session that never fails: a concrete `Database`.
use payment_system.Base.{
  ℕ, ◌≡◌, refl, sym, subst, ◌∙◌, Bool, true, false, ◌||◌, not, Option, none, some, ◌∷◌, inl, inr,
  arith, ◌==◌, if◌then◌else◌, is_some, find, count_where, Bool-cases, length,
}
use payment_system.Core.Exceptions.{integrity_error, unexpected}
use payment_system.Core.Exec.{Exec, ok, err}
use payment_system.Core.Outcome.{IsLibrary, IsUnexpected, Outcome}
use payment_system.Models.Wallet.{Uuid, Wallet}
use payment_system.Models.Transaction.{Transaction, Draft, fill, passes_checks}
use payment_system.Models.Tables.{Tables, wallet_by_id, by_key, IsKeyed}
use payment_system.Models.Tables.Writes.{set_columns, set_columns-IsKeyed}
use payment_system.Store.Session.{View, Newer, Follows, Ran, Hit, Updated, Recorded, Read}
use payment_system.Store.Follows.{Follows-refl}
use payment_system.Store.Database.{Database}

pub record Local : Type 0 where
  pub seen : Tables
  pub seen_keyed : IsKeyed seen.wallets
  pub durable : Tables
  pub durable_keyed : IsKeyed durable.wallets
  pub held : Uuid → Bool

abbrev pub local_view : Local → View
local_view s = record { seen = s.seen; durable = s.durable; held = s.held }

abbrev pub Same : Tables → Tables → Type 0
Same t u = t ≡ u

abbrev pub Fresh : Wallet → Wallet → Type 0
Fresh o w = o ≡ w

abbrev pub locked : Option Wallet → (Uuid → Bool) → Uuid → Bool
locked none held id = held id
locked (some w) held id = (w.id == id) || held id

abbrev pub local_lock : (Wallet → Bool) → Exec Local (Option Wallet)
local_lock p s =
    (ok (find p s.seen.wallets), record s { held = locked (find p s.seen.wallets) s.held })

abbrev pub matched : (Wallet → Bool) → Option Wallet → Bool
matched p none = false
matched p (some w) = p w

abbrev pub local_update : (Wallet → Bool) → ℕ → ℕ → Exec Local ℕ
local_update p balance version s = (
  ok (count_where p s.seen.wallets),
  record s {
    seen = record s.seen { wallets = set_columns p balance version 0 s.seen.wallets };
    seen_keyed = set_columns-IsKeyed p balance version 0 s.seen.wallets s.seen_keyed;
    held = λ id. matched p (wallet_by_id id s.seen.wallets) || s.held id;
  },
)

abbrev pub next_id : Tables → Uuid
next_id t = length t.transactions

abbrev pub add_entry : Draft → Local → Local
add_entry d s = record s {
  seen = record s.seen { transactions = fill (next_id s.seen) 0 d ∷ s.seen.transactions };
  seen_keyed = s.seen_keyed;
}

abbrev pub local_insert : Draft → Exec Local Transaction
local_insert d s =
    if is_some (by_key d.idempotency_key s.seen.transactions) || not (passes_checks d)
    then (err integrity_error, s)
    else (ok (fill (next_id s.seen) 0 d), add_entry d s)

pub Hit-refl : (r : Option Wallet) → Hit Same Fresh r r
Hit-refl none = tt
Hit-refl (some w) = refl

pub locked_still :
    (r : Option Wallet) (held : Uuid → Bool) (id : Uuid) → held id ≡ true → locked r held id ≡ true
locked_still none held id h = h
locked_still (some w) held id h = ground arith

pub locked_self : (w : Wallet) (held : Uuid → Bool) → locked (some w) held w.id ≡ true
locked_self w held = ground arith

pub local_insert_law :
    (d : Draft) (s : Local)
    → Outcome
        (λ x s'. Recorded Same Fresh d (local_view s) x (local_view s'))
        (λ e s'. IsLibrary e × Same s.durable s'.durable)
        (local_insert d s)
local_insert_law d s =
    let refused = is_some (by_key d.idempotency_key s.seen.transactions) || not (passes_checks d) in
    elim (Bool-cases refused) [
      | inl e ↦ rw e (tt, refl)
      | inr e ↦ rw e (record {
        before = s.seen;
        id = next_id s.seen;
        now = 0;
        ran = record {
          arrived = refl;
          kept = λ id h. refl;
          keyed = s.seen_keyed;
          others = refl;
          still = λ id h. h;
        };
        row = refl;
        unique = ground arith;
        checked = ground arith;
        written = refl;
      })
    ]

pub unchanged :
    (s : Local) (held : Uuid → Bool)
    → ((id : Uuid) → s.held id ≡ true → held id ≡ true)
    → Ran Same Fresh (local_view s) (local_view (record s { held = held })) s.seen
unchanged s held still = record {
  arrived = refl;
  kept = λ id h. refl;
  keyed = s.seen_keyed;
  others = refl;
  still = still;
}

pub local_update_law :
    (p : Wallet → Bool) (balance version : ℕ) (s : Local)
    → Outcome
        (λ n s'. Updated Same Fresh p balance version (local_view s) n (local_view s'))
        (λ e s'. IsLibrary e × Same s.durable s'.durable)
        (local_update p balance version s)
local_update_law p balance version s = record {
  before = s.seen;
  now = 0;
  ran = record {
    arrived = refl;
    kept = λ id h. refl;
    keyed = s.seen_keyed;
    others = refl;
    still = λ id h. ground arith;
  };
  rows = refl;
  written = refl;
  locks = λ id w e h. rw e (ground arith);
}

abbrev pub refreshed : Wallet → Option Wallet → Exec Local Wallet
refreshed w none s = (err (unexpected 3), s)
refreshed w (some r) s = (ok r, s)

pub refreshed_law :
    (w : Wallet) (r : Option Wallet) (s : Local)
    → wallet_by_id w.id s.seen.wallets ≡ r
    → Outcome
        (λ x s'.
          Read Same Fresh
            (λ t. wallet_by_id w.id t.wallets)
            (local_view s)
            (some x)
            (local_view s'))
        (λ e s'. IsUnexpected e × Same s.durable s'.durable)
        (refreshed w r s)
refreshed_law w none s e = (tt, refl)
refreshed_law w (some x) s e = record {
  ran = unchanged s s.held (λ id h. h);
  clean = λ c. c;
  result = sym e;
}

-- The database as a whole.
abbrev pub quiet : Database
quiet = record {
  Session = Local;
  view = local_view;
  Others = Same;
  Shows = Fresh;
  select_wallet = λ p s. (ok (find p s.seen.wallets), s);
  select_wallet_for_update = local_lock;
  update_wallets = local_update;
  select_transaction = λ p s. (ok (find p s.seen.transactions), s);
  insert_transaction = local_insert;
  commit =
      λ s. (ok tt, record s { durable = s.seen; durable_keyed = s.seen_keyed; held = λ _. false });
  rollback =
      λ s. (ok tt, record s { seen = s.durable; seen_keyed = s.durable_keyed; held = λ _. false });
  refresh_wallet = λ w s. refreshed w (wallet_by_id w.id s.seen.wallets) s;
  refresh_transaction = λ x s. (ok x, s);
  read_id = λ w s. (ok w.id, s);
  others_refl = λ t. refl;
  others_trans = λ t u x p q. p ∙ q;
  others_Follows = λ t u p. subst (Follows t) p (Follows-refl t);
  shows_Newer = λ o w p. subst (Newer o) p (refl, refl, inl refl);
  select_wallet_law = λ p s. record {
    ran = unchanged s s.held (λ id h. h);
    clean = λ e. e;
    hit = Hit-refl (find p s.seen.wallets);
  };
  select_wallet_for_update_law = λ p s. record {
    ran =
        unchanged s (locked (find p s.seen.wallets) s.held)
          (λ id h. locked_still (find p s.seen.wallets) s.held id h);
    clean = λ e. e;
    hit = Hit-refl (find p s.seen.wallets);
    locks = λ w e. rw e (locked_self w s.held);
  };
  update_wallets_law = local_update_law;
  select_transaction_law =
      λ p s. record { ran = unchanged s s.held (λ id h. h); clean = λ e. e; result = refl };
  insert_transaction_law = local_insert_law;
  commit_law = λ s. record { arrived = refl; kept = λ id h. refl; durable = refl };
  rollback_law = λ s. record { others = refl; back = refl };
  refresh_wallet_law = λ w s. refreshed_law w (wallet_by_id w.id s.seen.wallets) s refl;
  refresh_transaction_law = λ x s. (refl, refl);
  read_id_law = λ w s. (refl, refl);
}
