-- ===== src/Models/Tables/Writes.antt =====
-- What the versioned UPDATE of payment-system/app/repositories/wallet_repo.py does to the rows.
use payment_system.Base.{
  ℕ, ◌+◌, ◌<◌, ◌≡◌, ◌≢◌, refl, inl, inr, Bool, true, find, ◌&&◌, none, some, List, [], ◌∷◌, arith,
  ◌==◌, Bool-cases, count_where, update_where,
}
use payment_system.Models.Wallet.{Uuid, Time, Wallet, touch}
use payment_system.Models.Tables.{has_id, wallet_by_id, IsKeyed, total}

-- The WHERE clause and the SET clause, with the column that `onupdate` sets.
abbrev pub is_version : Uuid → ℕ → Wallet → Bool
is_version id version w = has_id id w && (w.version == version)

abbrev pub new_row : ℕ → ℕ → Time → Wallet → Wallet
new_row balance version now w = touch now (record w { balance = balance; version = version + 1 })

pub id_of_found :
    (id : Uuid) (w : Wallet) (ws : List Wallet) → wallet_by_id id ws ≡ some w → w.id ≡ id
id_of_found id w [] e = absurd (ground arith)
id_of_found id w (x ∷ ws) e = ground (arith, id_of_found id w ws)

pub find_holds {ℓ} :
    {A : Type ℓ} (p : A → Bool) (x : A) (xs : List A) → find p xs ≡ some x → p x ≡ true
find_holds p x [] e = absurd (ground arith)
find_holds p x (y ∷ xs) e = elim (Bool-cases (p y)) [
  | inl holds ↦ ground arith
  | inr fails ↦ ground (arith, find_holds p x xs)
]

-- A row that a query found is the row of its key.
pub found_by_id :
    (p : Wallet → Bool) (w : Wallet) (ws : List Wallet)
    → IsKeyed ws
    → find p ws ≡ some w
    → wallet_by_id w.id ws ≡ some w
found_by_id p w [] k e = absurd (ground arith)
found_by_id p w (x ∷ ws) k e = elim (Bool-cases (p x)) [
  | inl holds ↦ ground arith
  | inr fails ↦ ground (arith, found_by_id p w ws k.1)
]

module _ (id : Uuid) (version balance : ℕ) (now : Time) where
  abbrev pub put : List Wallet → List Wallet
  put = update_where (is_version id version) (new_row balance version now)

  pub wallet_by_id-put_ne :
      (j : Uuid) (ws : List Wallet) → j ≢ id → wallet_by_id j (put ws) ≡ wallet_by_id j ws
  wallet_by_id-put_ne j [] h = refl
  wallet_by_id-put_ne j (w ∷ ws) h = ground (arith, wallet_by_id-put_ne j ws h)

  pub wallet_by_id-put_self :
      (w : Wallet) (ws : List Wallet)
      → wallet_by_id id ws ≡ some w
      → w.version ≡ version
      → wallet_by_id id (put ws) ≡ some (new_row balance version now w)
  wallet_by_id-put_self w [] e v = ground arith
  wallet_by_id-put_self w (x ∷ ws) e v = ground (arith, wallet_by_id-put_self w ws)

  -- A key that stands nowhere: nothing is written.
  put_absent : (ws : List Wallet) → wallet_by_id id ws ≡ none → put ws ≡ ws
  put_absent [] e = refl
  put_absent (x ∷ ws) e = ground (arith, put_absent ws)

  pub total-put :
      (w : Wallet) (ws : List Wallet)
      → IsKeyed ws
      → wallet_by_id id ws ≡ some w
      → w.version ≡ version
      → total (put ws) + w.balance ≡ total ws + balance
  total-put w [] k e v = ground arith
  total-put w (x ∷ ws) k e v = ground (arith, total-put w ws k.1, put_absent ws)

module _ (id : Uuid) (version : ℕ) where
  count_absent :
      (ws : List Wallet) → wallet_by_id id ws ≡ none → count_where (is_version id version) ws ≡ 0
  count_absent [] e = refl
  count_absent (x ∷ ws) e = ground (arith, count_absent ws)

  -- A row is counted only if the row of the key has the version.
  pub row_of_count :
      (ws : List Wallet)
      → IsKeyed ws
      → 0 < count_where (is_version id version) ws
      → (w : Wallet) × (wallet_by_id id ws ≡ some w) × (w.version ≡ version)
  row_of_count [] k h = absurd (omega arith)
  row_of_count (x ∷ ws) k h = elim (Bool-cases (x.id == id)) [
    | inl same ↦ (x, rw same refl, ground (arith, count_absent ws))
    | inr other ↦ rw other (row_of_count ws k.1 (ground arith))
  ]

  -- And the row of the key is counted if it has the version.
  pub count_of_row :
      (w : Wallet) (ws : List Wallet)
      → wallet_by_id id ws ≡ some w
      → w.version ≡ version
      → 0 < count_where (is_version id version) ws
  count_of_row w [] e v = absurd (ground arith)
  count_of_row w (x ∷ ws) e v = ground (arith, count_of_row w ws)

-- An update of the two columns leaves the keys as they are.
module _ (p : Wallet → Bool) (balance version : ℕ) (now : Time) where
  abbrev pub set_columns : List Wallet → List Wallet
  set_columns = update_where p (λ w. touch now (record w { balance = balance; version = version }))

  wallet_by_id-set_columns :
      (id : Uuid) (ws : List Wallet)
      → wallet_by_id id ws ≡ none
      → wallet_by_id id (set_columns ws) ≡ none
  wallet_by_id-set_columns id [] h = refl
  wallet_by_id-set_columns id (w ∷ ws) h = ground (arith, wallet_by_id-set_columns id ws)

  pub set_columns-IsKeyed : (ws : List Wallet) → IsKeyed ws → IsKeyed (set_columns ws)
  set_columns-IsKeyed [] h = tt
  set_columns-IsKeyed (w ∷ ws) h =
      ground (arith, wallet_by_id-set_columns w.id ws h.0, set_columns-IsKeyed ws h.1)
