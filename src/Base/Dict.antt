-- ===== src/Base/Dict.antt =====
-- Dictionaries with texts as keys, in the order of insertion.
use Prim.Native.String.{String}
use mathlib.Core.Path.{◌≡◌, refl}
use mathlib.Core.Option.{Option, none, some}
use mathlib.Core.List.{List, [], ◌∷◌}
use native.Mathlib.Omega.{arith}
use text.Mathlib.Text.{◌==◌ as str_eq}
use text.Mathlib.TextEquality.{eq_iff}
use payment_system.Base.Tests.{if◌then◌else◌}

module _ {ℓ} {V : Type ℓ} where
  -- `d.get(key)`
  abbrev pub lookup : String → List (String × V) → Option V
  lookup key [] = none
  lookup key ((k, v) ∷ rest) = if str_eq k key then some v else lookup key rest

  -- `d[key] = value`
  abbrev pub update : String → V → List (String × V) → List (String × V)
  update key value [] = (key, value) ∷ []
  update key value ((k, v) ∷ rest) =
      if str_eq k key then (k, value) ∷ rest else (k, v) ∷ update key value rest

  pub lookup-update :
      (key name : String) (value : V) (d : List (String × V))
      → lookup name (update key value d) ≡ (if str_eq key name then some value else lookup name d)
  lookup-update key name value [] = refl
  lookup-update key name value ((k, v) ∷ rest) =
      ground
        (arith, eq_iff k key, eq_iff k name, eq_iff key name, lookup-update key name value rest)
