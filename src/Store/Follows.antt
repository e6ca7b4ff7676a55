-- ===== src/Store/Follows.antt =====
-- `Follows` is a preorder, and the versioned update of
-- payment-system/app/repositories/wallet_repo.py and the insert of
-- payment-system/app/repositories/transaction_repo.py are steps of it: what the program assumes of
-- other sessions it does itself.
use payment_system.Base.{
  ℕ, ◌≡◌, refl, subst, Option, none, some, inl, inr, ◌∷◌, arith, ◌==◌, Bool-cases, str_eq, eq_iff,
}
use payment_system.Models.Wallet.{Uuid, Time, Wallet}
use payment_system.Models.Transaction.{Transaction}
use payment_system.Models.Tables.{Tables, wallet_by_id, by_key}
use payment_system.Models.Tables.Writes.{put, wallet_by_id-put_self, wallet_by_id-put_ne}
use payment_system.Store.Session.{Newer, NewerRow, Follows}

pub Newer-trans : (a b c : Wallet) → Newer a b → Newer b c → Newer a c
Newer-trans a b c h k = ground arith

NewerRow-trans : (a b : Wallet) (r : Option Wallet) → Newer a b → NewerRow b r → NewerRow a r
NewerRow-trans a b none h k = k
NewerRow-trans a b (some c) h k = Newer-trans a b c h k

pub Follows-refl : (t : Tables) → Follows t t
Follows-refl t = record { wallets = λ id w e. rw e (refl, refl, inl refl); ledger = λ key x e. e }

pub Follows-trans : (t u x : Tables) → Follows t u → Follows u x → Follows t x
Follows-trans t u x f g = record {
  wallets = λ id w e. through id w (wallet_by_id id u.wallets) refl (f.wallets id w e);
  ledger = λ key y e. g.ledger key y (f.ledger key y e);
}
  where
    through :
        (id : Uuid) (w : Wallet) (r : Option Wallet)
        → wallet_by_id id u.wallets ≡ r
        → NewerRow w r
        → NewerRow w (wallet_by_id id x.wallets)
    through id w none e h = absurd h
    through id w (some v) e h = NewerRow-trans w v (wallet_by_id id x.wallets) h (g.wallets id v e)

-- A balance written under its version.
pub Follows-put :
    (id : Uuid) (version balance : ℕ) (now : Time) (w : Wallet) (t : Tables)
    → wallet_by_id id t.wallets ≡ some w
    → w.version ≡ version
    → Follows t (record t { wallets = put id version balance now t.wallets })
Follows-put id version balance now w t found current = record {
  wallets = λ j v e. elim (Bool-cases (j == id)) [
    | inl same ↦
        let p : j ≡ id = ground arith in
        rw (p, wallet_by_id-put_self id version balance now w t.wallets found current)
          (ground arith)
    | inr other ↦
        rw (wallet_by_id-put_ne id version balance now j t.wallets (ground arith))
          (rw e (refl, refl, inl refl))
  ];
  ledger = λ key x e. e;
}

-- A ledger entry under a key that was not used.
pub Follows-entry :
    (x : Transaction) (t : Tables)
    → by_key x.idempotency_key t.transactions ≡ none
    → Follows t (record t { transactions = x ∷ t.transactions })
Follows-entry x t fresh = record {
  wallets = λ id w e. rw e (refl, refl, inl refl);
  ledger = λ key y e. elim (Bool-cases (str_eq x.idempotency_key key)) [
    | inl same ↦
        let p = (eq_iff x.idempotency_key key).0 same in
        cc (subst (λ k. by_key k t.transactions ≡ none) p fresh)
    | inr other ↦ rw other e
  ];
}
