-- ===== src/Base/Rows.antt =====
-- Tables whose rows change status: what the row of a key satisfies, and how it survives a write. The
-- loops of the source that change the first row that fits, or every row, change them in place.
use Prim.Native.String.{String}
use text.Mathlib.Text.{◌==◌ as str_eq}
use text.Mathlib.TextEquality.{eq_iff}
use mathlib.Core.Path.{◌≡◌, refl, ◌∙◌, sym, subst}
use mathlib.Core.Logic.{inl, inr}
use mathlib.Core.Bool.{Bool, true, false}
use mathlib.Core.Option.{Option, none, some}
use mathlib.Core.List.{[], ◌∷◌}
use joinanny.Base.Tests.{if◌then◌else◌, Bool-cases}
use joinanny.Base.Table.{Table, lookup, insert, lookup-insert_self, lookup-insert_ne}

-- The first row that passes a test, and the table with it changed.
pub change_first {ℓ} : {V : Type ℓ} → (V → Bool) → (V → V) → Table V → Option V × Table V
change_first test f [] = (none, [])
change_first test f ((k, v) ∷ m) =
    let rest = change_first test f m in
    if test v then (some (f v), (k, f v) ∷ m) else (rest.0, (k, v) ∷ rest.1)

-- Every row changed.
pub change_all {ℓ} : {V : Type ℓ} → (V → V) → Table V → Table V
change_all f [] = []
change_all f ((k, v) ∷ m) = (k, f v) ∷ change_all f m

some_inj {ℓ} : {V : Type ℓ} (w v : V) → some w ≡ some v → w ≡ v
some_inj w v h = cc

module _ {ℓ κ} {V : Type ℓ} (P : V → Type κ) where
  -- The table has a row of the key and it satisfies P.
  abbrev pub Holds : String → Table V → Type (ℓ ⊔ κ)
  Holds id m = (v : V) × (lookup id m ≡ some v) × P v

  -- A write that takes a row in P to a row in P.
  pub Holds-insert :
      (id j : String) (v v' : V) (m : Table V)
      → lookup j m ≡ some v
      → (P v → P v')
      → Holds id m
      → Holds id (insert j v' m)
  Holds-insert id j v v' m at keep (w, e, p) = elim (Bool-cases (str_eq j id)) [
    | inr differ ↦ (w, lookup-insert_ne j id v' m differ ∙ e, p)
    | inl same ↦
        let there : lookup id m ≡ some v =
          subst (λ k. lookup k m ≡ some v) ((eq_iff j id).0 same) at in
        let found : w ≡ v = some_inj w v (sym e ∙ there) in
        (
          v',
          subst (λ k. lookup k (insert j v' m) ≡ some v') ((eq_iff j id).0 same)
              (lookup-insert_self j v' m),
          keep (subst P found p),
        )
  ]

  -- A write of a row in P.
  pub Holds-write : (id : String) (v' : V) (m : Table V) → P v' → Holds id (insert id v' m)
  Holds-write id v' m p = (v', lookup-insert_self id v' m, p)

  pub Holds-insert_ne :
      (id j : String) (v' : V) (m : Table V)
      → str_eq j id ≡ false
      → Holds id m
      → Holds id (insert j v' m)
  Holds-insert_ne id j v' m differ (w, e, p) = (w, lookup-insert_ne j id v' m differ ∙ e, p)

  pub Holds-change_first :
      (test : V → Bool) (f : V → V) (id : String) (m : Table V)
      → ((v : V) → test v ≡ true → P v → P (f v))
      → Holds id m
      → Holds id (change_first test f m).1
  unfolding lookup change_first
  Holds-change_first test f id [] keep h = h
  Holds-change_first test f id ((k, v) ∷ m) keep (w, e, p) = elim (Bool-cases (test v)) [
    | inl passes ↦ elim (Bool-cases (str_eq k id)) [
      | inl same ↦
          rw (passes, same)
            (f v, refl, keep v passes (subst P (sym (some_inj v w (rw same at e))) p))
      | inr differ ↦ rw (passes, differ) (w, rw differ at e, p)
    ]
    | inr fails ↦ elim (Bool-cases (str_eq k id)) [
      | inl same ↦ rw (fails, same) (w, rw same at e, p)
      | inr differ ↦ rw (fails, differ) (Holds-change_first test f id m keep (w, rw differ at e, p))
    ]
  ]

  pub Holds-change_all :
      (f : V → V) (id : String) (m : Table V)
      → ((v : V) → P v → P (f v))
      → Holds id m
      → Holds id (change_all f m)
  unfolding lookup change_all
  Holds-change_all f id [] keep (w, e, p) = cc
  Holds-change_all f id ((k, v) ∷ m) keep (w, e, p) = elim (Bool-cases (str_eq k id)) [
    | inl same ↦ rw same (f v, refl, keep v (subst P (sym (some_inj v w (rw same at e))) p))
    | inr differ ↦ rw differ (Holds-change_all f id m keep (w, rw differ at e, p))
  ]
