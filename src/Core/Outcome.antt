-- ===== src/Core/Outcome.antt =====
-- Statements about how a method ends, with a rule for each way to build a method.
use payment_system.Core.Exceptions.{Exception, integrity_error, unexpected}
use payment_system.Core.Exec.{Result, ok, err, Exec, resume, on_error}

-- A library raises its own exceptions only, never one of the program's.
abbrev pub IsLibrary : Exception → Type 0
IsLibrary integrity_error = Unit {0}
IsLibrary (unexpected class) = Unit {0}
IsLibrary _ = ⊥

-- A failure that no constraint caused: a lost connection, a closed session.
abbrev pub IsUnexpected : Exception → Type 0
IsUnexpected (unexpected class) = Unit {0}
IsUnexpected _ = ⊥

pub Unexpected-IsLibrary : (e : Exception) → IsUnexpected e → IsLibrary e
Unexpected-IsLibrary (unexpected class) h = tt
Unexpected-IsLibrary _ h = absurd h

-- `P` holds of the value and the state after it, `E` of the exception and the state after it.
abbrev pub Outcome {ℓ} :
    {S A : Type ℓ} → (A → S → Type 0) → (Exception → S → Type 0) → Result A × S → Type 0
Outcome P E (ok a, s) = P a s
Outcome P E (err e, s) = E e s

-- It returns a value, of which `P` holds.
abbrev pub Returns {ℓ} : {S A : Type ℓ} → (A → S → Type 0) → Result A × S → Type 0
Returns P = Outcome P (λ _ _. ⊥)

module _ {ℓ} {S A : Type ℓ} where
  pub Outcome-weaken :
      (P Q : A → S → Type 0) (E F : Exception → S → Type 0) (r : Result A × S)
      → Outcome P E r
      → ((a : A) (s : S) → P a s → Q a s)
      → ((e : Exception) (s : S) → E e s → F e s)
      → Outcome Q F r
  Outcome-weaken P Q E F (ok a, s) h p e = p a s h
  Outcome-weaken P Q E F (err x, s) h p e = e x s h

  -- What holds of a call that returns, where it is known to return.
  pub Outcome-both :
      (P : A → S → Type 0) (E : Exception → S → Type 0) (Q : A → S → Type 0) (r : Result A × S)
      → Outcome P E r
      → Returns Q r
      → Returns P r
  Outcome-both P E Q (ok a, s) h q = h
  Outcome-both P E Q (err x, s) h q = absurd q

  pub Returns-weaken :
      (P Q : A → S → Type 0) (F : Exception → S → Type 0) (r : Result A × S)
      → Returns P r
      → ((a : A) (s : S) → P a s → Q a s)
      → Outcome Q F r
  Returns-weaken P Q F (ok a, s) h p = p a s h
  Returns-weaken P Q F (err x, s) h p = absurd h

  pub Outcome-catch :
      (P Q : A → S → Type 0) (E F : Exception → S → Type 0) (r : Result A × S)
      (handler : Exception → Exec S A)
      → Outcome P E r
      → ((a : A) (s : S) → P a s → Q a s)
      → ((e : Exception) (s : S) → E e s → Outcome Q F (handler e s))
      → Outcome Q F (on_error r handler)
  Outcome-catch P Q E F (ok a, s) handler h p e = p a s h
  Outcome-catch P Q E F (err x, s) handler h p e = e x s h

module _ {ℓ} {S A B : Type ℓ} where
  pub Outcome-bind :
      (P : A → S → Type 0) (Q : B → S → Type 0) (E F : Exception → S → Type 0) (r : Result A × S)
      (f : A → Exec S B)
      → Outcome P E r
      → ((a : A) (s : S) → P a s → Outcome Q F (f a s))
      → ((e : Exception) (s : S) → E e s → F e s)
      → Outcome Q F (resume r f)
  Outcome-bind P Q E F (ok a, s) f h p e = p a s h
  Outcome-bind P Q E F (err x, s) f h p e = e x s h

  -- What a call that never raises is followed by.
  pub Returns-bind :
      (P : A → S → Type 0) (Q : B → S → Type 0) (F : Exception → S → Type 0) (r : Result A × S)
      (f : A → Exec S B)
      → Returns P r
      → ((a : A) (s : S) → P a s → Outcome Q F (f a s))
      → Outcome Q F (resume r f)
  Returns-bind P Q F (ok a, s) f h p = p a s h
  Returns-bind P Q F (err x, s) f h p = absurd h
