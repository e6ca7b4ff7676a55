-- ===== src/Store/Paging/Newest.antt =====
-- The one arrangement newest first of ledger entries whose creation times differ, which `ORDER BY
-- created_at DESC` in payment-system/app/repositories/transaction_repo.py then returns.
use mathlib.Core.Path.{ap₂}
use mathlib.Core.HLevel.{hedberg}
use mathlib.Core.List.{Perm, Mem, Pairwise, Pairwise-singleton, mem-cons, mem-cons_self}
use mathlib.Core.List.Perm
use mathlib.Core.List.Pairwise
use mathlib.Core.Logic.Or
use native.Mathlib.Bridge.{le_prop}
use payment_system.Base.{
  ◌≤◌, String, str_eq, eq_iff, ◌≡◌, ◌≢◌, sym, List, [], ◌∷◌, leb, if◌then◌else◌, Bool-cases, inl,
  inr, arith,
}
use payment_system.Models.Transaction.{Transaction}
use payment_system.Store.Paging.{NewestFirst}

-- No two entries were made at the same time.
abbrev pub Dated : List Transaction → Type 0
Dated = Pairwise (λ x y. x.created_at ≢ y.created_at)

String-discrete : Discrete String
String-discrete s t = elim (Bool-cases (str_eq s t)) [
  | inl same ↦ yes ((eq_iff s t).0 same)
  | inr other ↦ no (λ e. cc ((eq_iff s t).1 e))
]

String-set : IsSet String
String-set = hedberg String-discrete

Transaction-set : IsSet Transaction
Transaction-set = hlevel (String-set)

-- The entry `x` is at least as new as all of `l`.
abbrev IsNewest : Transaction → List Transaction → Type 0
IsNewest x l = (y : Transaction) → Mem y l → y.created_at ≤ x.created_at

-- One entry into its place: a reference definition of the order.
unfoldable pub place : Transaction → List Transaction → List Transaction
place x [] = x ∷ []
place x (y ∷ ys) = if leb y.created_at x.created_at then x ∷ y ∷ ys else y ∷ place x ys

unfoldable pub newest_first : List Transaction → List Transaction
unfolding place
newest_first [] = []
newest_first (x ∷ xs) = place x (newest_first xs)

place-perm : (x : Transaction) (l : List Transaction) → Perm (place x l) (x ∷ l)
unfolding place
place-perm x [] = Perm.rfl
place-perm x (y ∷ ys) = elim (Bool-cases (leb y.created_at x.created_at)) [
  | inl newer ↦ rw newer Perm.rfl
  | inr older ↦ rw older (Perm.trans (Perm.cons y (place-perm x ys)) (Perm.swap x y ys))
]

pub newest_first-perm : (l : List Transaction) → Perm (newest_first l) l
unfolding newest_first
newest_first-perm [] = Perm.rfl
newest_first-perm (x ∷ xs) =
    Perm.trans (place-perm x (newest_first xs)) (Perm.cons x (newest_first-perm xs))

IsNewest-cons :
    (x y : Transaction) (l : List Transaction)
    → y.created_at ≤ x.created_at
    → IsNewest x l
    → IsNewest x (y ∷ l)
IsNewest-cons x y l h below z m = Or.elim le_prop (mem-cons.0 m) (λ e. rw e h) (below z)

IsNewest-trans :
    (x y : Transaction) (l : List Transaction)
    → y.created_at ≤ x.created_at
    → IsNewest y l
    → IsNewest x l
IsNewest-trans x y l h below z m = omega (arith, below z m)

IsNewest-perm : (x : Transaction) {l r : List Transaction} → Perm l r → IsNewest x r → IsNewest x l
IsNewest-perm x p h y m = h y ((Perm.mem_iff p).0 m)

place-NewestFirst :
    (x : Transaction) (l : List Transaction) → NewestFirst l → NewestFirst (place x l)
unfolding place
place-NewestFirst x [] s = Pairwise-singleton _ x
place-NewestFirst x (y ∷ ys) (Pairwise.cons below s) =
    elim (Bool-cases (leb y.created_at x.created_at)) [
      | inl newer ↦ rw newer (
          Pairwise.cons
            (IsNewest-cons x y ys (ground arith) (IsNewest-trans x y ys (ground arith) below))
            (Pairwise.cons below s))
      | inr older ↦ rw older (
          Pairwise.cons
            (IsNewest-perm y (place-perm x ys) (IsNewest-cons y x ys (ground arith) below))
            (place-NewestFirst x ys s))
    ]

pub newest_first-NewestFirst : (l : List Transaction) → NewestFirst (newest_first l)
unfolding newest_first
newest_first-NewestFirst [] = Pairwise.nil
newest_first-NewestFirst (x ∷ xs) =
    place-NewestFirst x (newest_first xs) (newest_first-NewestFirst xs)

-- The head of one arrangement is not newer than the head of another.
heads_le :
    (x y : Transaction) (l r : List Transaction)
    → NewestFirst (x ∷ l)
    → Perm (y ∷ r) (x ∷ l)
    → y.created_at ≤ x.created_at
heads_le x y l r (Pairwise.cons below s) p =
    IsNewest-perm x p (IsNewest-cons x x l (omega arith) below) y mem-cons_self

-- Entries of one list with the same time are one entry, if the times of the list differ.
same_entry :
    (x y : Transaction) (l : List Transaction)
    → Dated (x ∷ l)
    → Mem y (x ∷ l)
    → x.created_at ≡ y.created_at
    → x ≡ y
same_entry x y l (Pairwise.cons apart s) m e =
    Or.elim (Transaction-set x y) (mem-cons.0 m) (λ h. sym h) (λ later. absurd (apart y later e))

-- Two arrangements newest first of entries whose times differ are one list.
pub NewestFirst-eq_of_perm :
    (l r : List Transaction) → NewestFirst l → NewestFirst r → Dated l → Perm l r → l ≡ r
NewestFirst-eq_of_perm [] r s t d p = Perm.nil-eq p
NewestFirst-eq_of_perm (x ∷ l) [] s t d p = Perm.eq-nil p
NewestFirst-eq_of_perm (x ∷ l) (y ∷ r) s t d p =
    let le = heads_le x y l r s (Perm.symm p) in
    let ge = heads_le y x r l t p in
    let heads : x ≡ y =
      same_entry x y l d ((Perm.mem_iff (Perm.symm p)).0 mem-cons_self) (omega arith) in
    let tails = Perm.cons_inv (Perm.trans p (Perm.symm (Perm.cons' heads Perm.rfl))) in
    ap₂ ◌∷◌ heads (
      NewestFirst-eq_of_perm l r (Pairwise.of_cons s) (Pairwise.of_cons t) (Pairwise.of_cons d)
        tails)

apart_sym : (x y : Transaction) → x.created_at ≢ y.created_at → y.created_at ≢ x.created_at
apart_sym x y h e = h (sym e)

-- Whatever arrangement newest first the query takes, it is that of `newest_first`.
pub newest_first_unique :
    (l ordered : List Transaction)
    → Dated l
    → NewestFirst ordered
    → Perm ordered l
    → ordered ≡ newest_first l
newest_first_unique l ordered d s p =
    NewestFirst-eq_of_perm ordered (newest_first l) s (newest_first-NewestFirst l)
      (Perm.pairwise (λ x y. hlevel) apart_sym (Perm.symm p) d)
      (Perm.trans p (Perm.symm (newest_first-perm l)))
