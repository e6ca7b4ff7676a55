-- ===== src/Store/Calm.antt =====
-- A database on which nothing fails and nobody else commits, and what the calls of
-- payment-system/app/repositories/wallet_repo.py then answer.
use payment_system.Base.{
  ℕ, ◌+◌, ◌≡◌, refl, sym, subst, ap, ◌∙◌, Bool, true, Option, none, some, find, arith,
}
use payment_system.Core.Outcome.{Returns, Outcome-both, Returns-bind, Returns-weaken}
use payment_system.Models.Wallet.{Uuid, Time, Wallet}
use payment_system.Models.Transaction.{Transaction, Draft, passes_checks}
use payment_system.Models.Tables.{Tables, has_id, wallet_by_id, by_key}
use payment_system.Models.Tables.Writes.{is_version, put, count_of_row}
use payment_system.Store.Session.{Hit, Locked, Updated, Selected}
use payment_system.Store.Database.{Database}
use payment_system.Store.Repositories.{get_by_id_for_update, update_balance}

-- No statement raises, but an insert that breaks a constraint. Objects show the row as it is.
pub record IsCalm (db : Database) : Type 0 where
  pub alone : (t u : Tables) → db.Others t u → t ≡ u
  pub fresh : (o w : Wallet) → db.Shows o w → o ≡ w
  pub selects :
      (p : Wallet → Bool) (s : db.Session) → Returns (λ _ _. Unit {0}) (db.select_wallet p s)
  pub locks :
      (p : Wallet → Bool) (s : db.Session)
      → Returns (λ _ _. Unit {0}) (db.select_wallet_for_update p s)
  pub updates :
      (p : Wallet → Bool) (balance version : ℕ) (s : db.Session)
      → Returns (λ _ _. Unit {0}) (db.update_wallets p balance version s)
  pub queries :
      (p : Transaction → Bool) (s : db.Session)
      → Returns (λ _ _. Unit {0}) (db.select_transaction p s)
  pub inserts :
      (d : Draft) (s : db.Session)
      → by_key d.idempotency_key (db.view s).seen.transactions ≡ none
      → passes_checks d ≡ true
      → Returns (λ _ _. Unit {0}) (db.insert_transaction d s)
  pub commits : (s : db.Session) → Returns (λ _ _. Unit {0}) (db.commit s)
  pub refreshes :
      (x : Transaction) (s : db.Session) → Returns (λ _ _. Unit {0}) (db.refresh_transaction x s)
  pub rereads :
      (w r : Wallet) (s : db.Session)
      → wallet_by_id w.id (db.view s).seen.wallets ≡ some r
      → Returns (λ _ _. Unit {0}) (db.refresh_wallet w s)
  pub reads : (w : Wallet) (s : db.Session) → Returns (λ _ _. Unit {0}) (db.read_id w s)

module _ (db : Database) (calm : IsCalm db) where
  open db use {Session, view, Others, Shows}

  shown_row : (row r : Option Wallet) → Hit Others Shows row r → r ≡ row
  shown_row none none h = refl
  shown_row none (some o) h = absurd h
  shown_row (some w) none h = absurd h
  shown_row (some w) (some o) h = ap some (calm.fresh o w h)

  pub calm_select :
      (p : Wallet → Bool) (s : Session)
      → Returns
          (λ r s'.
            (r ≡ find p (view s).seen.wallets)
            × ((view s').seen ≡ (view s).seen)
            × Selected Others Shows p (view s) r (view s'))
          (db.select_wallet p s)
  calm_select p s =
      Returns-weaken (λ r s'. Selected Others Shows p (view s) r (view s')) _ (λ _ _. ⊥) _
        (Outcome-both _ _ _ (db.select_wallet p s) (db.select_wallet_law p s) (calm.selects p s))
        (λ r s' l.
          let same = sym (calm.alone _ _ l.ran.arrived) in
          (shown_row _ r l.hit ∙ ap (λ (t : Tables). find p t.wallets) same, same, l))

  pub calm_lock :
      (id : Uuid) (s : Session)
      → Returns
          (λ r s'. (r ≡ wallet_by_id id (view s).seen.wallets) × ((view s').seen ≡ (view s).seen))
          (get_by_id_for_update db id s)
  unfolding get_by_id_for_update
  calm_lock id s =
      Returns-weaken (λ r s'. Locked Others Shows (has_id id) (view s) r (view s')) _ (λ _ _. ⊥) _
        (Outcome-both _ _ _ (db.select_wallet_for_update (has_id id) s)
          (db.select_wallet_for_update_law (has_id id) s) (calm.locks (has_id id) s))
        (λ r s' l.
          let same = sym (calm.alone _ _ l.ran.arrived) in
          (shown_row _ r l.hit ∙ ap (λ (t : Tables). find (has_id id) t.wallets) same, same))

  -- The versioned update of a row at its version is made.
  pub calm_update :
      (w : Wallet) (id : Uuid) (balance version : ℕ) (s : Session)
      → wallet_by_id id (view s).seen.wallets ≡ some w
      → w.version ≡ version
      → Returns
          (λ updated s'.
            (updated ≡ true)
            × ((now : Time) × ((view s').seen ≡ record (view s).seen {
              wallets = put id version balance now (view s).seen.wallets;
            })))
          (update_balance db id balance version s)
  unfolding update_balance
  calm_update w id balance version s found current =
      Returns-bind
        (λ n s'.
          Updated Others Shows (is_version id version) balance (version + 1) (view s) n (view s'))
        _ (λ _ _. ⊥) _ _
        (Outcome-both _ _ _ (db.update_wallets (is_version id version) balance (version + 1) s)
          (db.update_wallets_law (is_version id version) balance (version + 1) s)
          (calm.updates (is_version id version) balance (version + 1) s))
        (λ n s' u.
          let same = calm.alone _ _ u.ran.arrived in
          let here = subst (λ (t : Tables). wallet_by_id id t.wallets ≡ some w) same found in
          (
            ground (arith, u.rows, count_of_row id version w u.before.wallets here current),
            (
              u.now,
              u.written
                  ∙ ap
                      (λ (t : Tables). record t {
                        wallets = put id version balance u.now t.wallets;
                      })
                      (sym same),
            ),
          ))
