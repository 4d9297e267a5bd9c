-- ===== src/Orders/Store/Once.antt =====
-- No confirmation of internal/orders/service.go is handed out for execution twice.
use text.Mathlib.Text.{◌==◌ as str_eq}
use text.Mathlib.TextEquality.{eq_iff}
use joinanny.Base.{
  ℕ, suc, ◌≤◌, ◌≡◌, refl, sym, subst, inl, inr, String, Bool, true, false, ◌&&◌, List, [], ◌∷◌,
  arith, if◌then◌else◌, All, Bool-cases,
}
use joinanny.Orders.Store.{
  Confirmation, ExecutionResult, Store, put, take_for_execution, complete, fail, cancel,
}
use joinanny.Orders.Store.Rows.{
  Spent, Spent-later, take_for_execution-Spent, complete-Spent, fail-Spent, cancel-Spent, put-Spent,
}
use joinanny.Orders.Store.Answers.{handed, take_refuses, take_spends}

-- A call of the store.
pub data Call : Type 0 where
  put_call : Confirmation → Call
  take_call : ℕ → String → Call
  complete_call : String → ExecutionResult → Call
  fail_call : String → Call
  cancel_call : ℕ → String → Call

-- The store after a call made at a time.
unfoldable pub after : ℕ → Call → Store → Store
after now (put_call c) items = (put c items).1
after now (take_call user id) items = (take_for_execution user id now items).1
after now (complete_call id result) items = (complete id result items).1
after now (fail_call id) items = (fail id items).1
after now (cancel_call user id) items = (cancel user id now items).1

-- Whether a call hands the confirmation of an id out for execution.
unfoldable pub hands_out : String → ℕ → Call → Store → Bool
hands_out id now (take_call user j) items =
    str_eq j id && handed (take_for_execution user j now items).0
hands_out id now (put_call c) items = false
hands_out id now (complete_call j result) items = false
hands_out id now (fail_call j) items = false
hands_out id now (cancel_call user j) items = false

-- How many calls of a history do.
unfoldable pub times_handed_out : String → List (ℕ × Call) → Store → ℕ
times_handed_out id [] items = 0
times_handed_out id ((now, c) ∷ cs) items =
    let rest = times_handed_out id cs (after now c items) in
    if hands_out id now c items then suc rest else rest

-- The times of a history do not go back.
abbrev pub Forward : ℕ → List (ℕ × Call) → Type 0
Forward t [] = Unit {0}
Forward t ((now, c) ∷ cs) = (t ≤ now) × Forward now cs

-- A call puts no confirmation under the id.
abbrev pub KeepsId : String → ℕ × Call → Type 0
KeepsId id (now, put_call c) = str_eq c.id id ≡ false
KeepsId id (now, take_call user j) = Unit {0}
KeepsId id (now, complete_call j result) = Unit {0}
KeepsId id (now, fail_call j) = Unit {0}
KeepsId id (now, cancel_call user j) = Unit {0}

after-Spent :
    (id : String) (now : ℕ) (c : Call) (items : Store)
    → KeepsId id (now, c)
    → Spent id now items
    → Spent id now (after now c items)
unfolding after
after-Spent id now (put_call c) items k s = put-Spent id id now items s c k
after-Spent id now (take_call user j) items k s = take_for_execution-Spent id j now items s user
after-Spent id now (complete_call j result) items k s = complete-Spent id j now items s result
after-Spent id now (fail_call j) items k s = fail-Spent id j now items s
after-Spent id now (cancel_call user j) items k s = cancel-Spent id j now items s user

hands_out-Spent :
    (id : String) (now : ℕ) (c : Call) (items : Store)
    → Spent id now items
    → hands_out id now c items ≡ false
unfolding hands_out
hands_out-Spent id now (take_call user j) items s = elim (Bool-cases (str_eq j id)) [
  | inr other ↦ rw other
  | inl same ↦ rw same (
      take_refuses user j now items (subst (λ k. Spent k now items) (sym ((eq_iff j id).0 same)) s))
]
hands_out-Spent id now (put_call c) items s = refl
hands_out-Spent id now (complete_call j result) items s = refl
hands_out-Spent id now (fail_call j) items s = refl
hands_out-Spent id now (cancel_call user j) items s = refl

hands_out_spends :
    (id : String) (now : ℕ) (c : Call) (items : Store)
    → hands_out id now c items ≡ true
    → Spent id now (after now c items)
unfolding hands_out after
hands_out_spends id now (take_call user j) items h = elim (Bool-cases (str_eq j id)) [
  | inr other ↦ let refusal : false ≡ true = rw other at h in cc
  | inl same ↦
      subst (λ k. Spent k now (take_for_execution user j now items).1) ((eq_iff j id).0 same)
        (take_spends user j now items (rw same at h))
]
hands_out_spends id now (put_call c) items h = cc
hands_out_spends id now (complete_call j result) items h = cc
hands_out_spends id now (fail_call j) items h = cc
hands_out_spends id now (cancel_call user j) items h = cc

-- A spent confirmation is never handed out again.
Spent-never :
    (id : String) (t : ℕ) (cs : List (ℕ × Call)) (items : Store)
    → Forward t cs
    → All (KeepsId id) cs
    → Spent id t items
    → times_handed_out id cs items ≡ 0
unfolding times_handed_out
Spent-never id t [] items f k s = refl
Spent-never id t ((now, c) ∷ cs) items (f, fs) (k, ks) s =
    let s' = Spent-later id t now items f s in
    rw (hands_out-Spent id now c items s')
      (Spent-never id now cs (after now c items) fs ks (after-Spent id now c items k s'))

-- At most one execution: whatever the store holds, in every history of calls whose times do not go
-- back and in which no confirmation is put under the id again, the confirmation of the id is handed
-- out for execution at most once.
pub times_handed_out-le :
    (id : String) (t : ℕ) (cs : List (ℕ × Call)) (items : Store)
    → Forward t cs
    → All (KeepsId id) cs
    → times_handed_out id cs items ≤ 1
unfolding times_handed_out
times_handed_out-le id t [] items f k = omega arith
times_handed_out-le id t ((now, c) ∷ cs) items (f, fs) (k, ks) =
    elim (Bool-cases (hands_out id now c items)) [
      | inl out ↦ rw out (
          omega (
            arith,
            Spent-never id now cs (after now c items) fs ks (hands_out_spends id now c items out),
          ))
      | inr kept ↦ rw kept (times_handed_out-le id now cs (after now c items) fs ks)
    ]
