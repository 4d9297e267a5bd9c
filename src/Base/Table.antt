-- ===== src/Base/Table.antt =====
-- A Go map keyed by strings, as an association list in the order in which `range` visits it (Go
-- leaves that order open; the theorems about the stores hold of every list).
use Prim.Native.String.{String}
use text.Mathlib.Text.{◌==◌ as str_eq}
use text.Mathlib.TextEquality.{eq_iff}
use text.Mathlib.TextPositions.{eq_refl}
use mathlib.Core.Bool.{false}
use mathlib.Core.Path.{◌≡◌, refl}
use mathlib.Core.Option.{Option, none, some}
use mathlib.Core.List.{List, [], ◌∷◌}
use native.Mathlib.Omega.{arith}
use joinanny.Base.Tests.{if◌then◌else◌}

abbrev pub Table {ℓ} : Type ℓ → Type ℓ
Table V = List (String × V)

module _ {ℓ} {V : Type ℓ} where
  unfoldable pub lookup : String → Table V → Option V
  lookup key [] = none
  lookup key ((other, value) ∷ rows) = if str_eq other key then some value else lookup key rows

  unfoldable pub insert : String → V → Table V → Table V
  insert key value [] = (key, value) ∷ []
  insert key value ((other, old) ∷ rows) =
      if str_eq other key then (key, value) ∷ rows else (other, old) ∷ insert key value rows

  pub lookup-insert :
      (written read : String) (value : V) (rows : Table V)
      → lookup read (insert written value rows)
        ≡ (if str_eq written read then some value else lookup read rows)
  unfolding lookup insert
  lookup-insert written read value [] = refl
  lookup-insert written read value ((other, old) ∷ rows) =
      let rest = lookup-insert written read value rows in
      ground (arith, rest, eq_iff written read, eq_iff other written, eq_iff other read)

module _ {ℓ} {V : Type ℓ} where
  pub lookup-insert_self : (k : String) (v : V) (m : Table V) → lookup k (insert k v m) ≡ some v
  lookup-insert_self k v m = simp (lookup-insert, eq_refl)

  pub lookup-insert_ne :
      (k j : String) (v : V) (m : Table V)
      → str_eq k j ≡ false
      → lookup j (insert k v m) ≡ lookup j m
  lookup-insert_ne k j v m h = simp (lookup-insert, h)
