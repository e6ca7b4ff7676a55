-- ===== src/Core/Exec.antt =====
-- Methods that read and write some state `S` and may raise. What was written before an exception
-- stays written, so the state comes back beside the exception too.
use payment_system.Base.{Option, none, some}
use payment_system.Core.Exceptions.{Exception}

pub data Result {ℓ} (A : Type ℓ) : Type ℓ where
  ok : A → Result A
  err : Exception → Result A

abbrev pub Exec {ℓ} : Type ℓ → Type ℓ → Type ℓ
Exec S A = S → Result A × S

module _ {ℓ} {S A : Type ℓ} where
  abbrev pub pure : A → Exec S A
  pure a s = (ok a, s)

  abbrev pub raise : Exception → Exec S A
  raise e s = (err e, s)

  -- `if not x: raise e`
  abbrev pub or_raise : Exception → Option A → Exec S A
  or_raise e none = raise e
  or_raise e (some a) = pure a

  -- `try: m`, then `except Exception as e: handler(e)`
  abbrev pub on_error : Result A × S → (Exception → Exec S A) → Result A × S
  on_error (ok a, s) handler = (ok a, s)
  on_error (err e, s) handler = handler e s

  -- `try: m`, then `except` clauses, as a method.
  abbrev pub catching : Exec S A → (Exception → Exec S A) → Exec S A
  catching m handler s = on_error (m s) handler

module _ {ℓ} {S A B : Type ℓ} where
  abbrev pub resume : Result A × S → (A → Exec S B) → Result B × S
  resume (ok a, s) f = f a s
  resume (err e, s) f = (err e, s)

  infixl 5 ◌>>=◌ ◌>>◌
  abbrev pub ◌>>=◌ : Exec S A → (A → Exec S B) → Exec S B
  ◌>>=◌ m f s = resume (m s) f

  abbrev pub ◌>>◌ : Exec S A → Exec S B → Exec S B
  m >> k = m >>= λ _. k
