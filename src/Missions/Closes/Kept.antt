-- ===== src/Missions/Closes/Kept.antt =====
-- What the calls of the store of internal/api/scheduled_close.go keep of a row.
use text.Mathlib.Text.{◌==◌ as str_eq}
use text.Mathlib.TextEquality.{eq_iff}
use joinanny.Base.{
  ℕ, ◌≡◌, refl, sym, ap, ◌∙◌, subst, inl, inr, String, Bool, true, false, ◌&&◌, ◌||◌, Option, none,
  some, Bool-cases,
}
use joinanny.Base.Table.{lookup}
use joinanny.Base.Rows.{Holds, Holds-insert, Holds-write, Holds-insert_ne, Holds-change_first}
use joinanny.Missions.Closes.{
  ScheduledCloseStatus, ScheduledClose, Closes, is_awaiting_entry, is_pending, is_executing, save,
  change_found, claimable, claimed_row, claim_due, settled_row, mark_terminal, cancelled_row,
  mark_cancelled, activated_row, activate_by_entry_confirmation, cancel_by_entry_confirmation,
}
use joinanny.Missions.Closes.History.{
  Call, save_call, claim_call, done_call, skipped_call, cancelled_call, activate_call, cancel_call,
  after, claims,
}

-- A change keeps P wherever its test passes.
abbrev pub Keeps :
    (ScheduledClose → Type 0) → (ScheduledClose → Bool) → (ScheduledClose → ScheduledClose) → Type 0
Keeps P test f = (row : ScheduledClose) → test row ≡ true → P row → P (f row)

-- A call made at a time keeps P of the row of the id.
abbrev pub CallKeeps : (ScheduledClose → Type 0) → String → ℕ → Call → Type 0
CallKeeps P id now (save_call close) = str_eq close.id id ≡ false
CallKeeps P id now (claim_call j) = Keeps P (claimable now) (claimed_row now)
CallKeeps P id now (done_call j c reason) =
    Keeps P (λ row. is_executing row.status) (settled_row ScheduledCloseStatus.done c reason now)
CallKeeps P id now (skipped_call j c reason) =
    Keeps P (λ row. is_executing row.status) (settled_row ScheduledCloseStatus.skipped c reason now)
CallKeeps P id now (cancelled_call j reason) =
    Keeps P (λ row. is_pending row.status || is_executing row.status) (cancelled_row reason now)
CallKeeps P id now (activate_call entry) =
    Keeps P (λ row. str_eq row.entry_confirmation_id entry && is_awaiting_entry row.status)
      (activated_row now)
CallKeeps P id now (cancel_call entry reason) =
    Keeps P
      (λ row.
        str_eq row.entry_confirmation_id entry
        && (is_awaiting_entry row.status || is_pending row.status))
      (cancelled_row reason now)

module _ (P : ScheduledClose → Type 0) where
  change_found-Holds :
      (id j : String) (test : ScheduledClose → Bool) (f : ScheduledClose → ScheduledClose)
      (o : Option ScheduledClose) (rows : Closes)
      → lookup j rows ≡ o
      → Keeps P test f
      → Holds P id rows
      → Holds P id (change_found j test f o rows).1
  unfolding change_found
  change_found-Holds id j test f none rows at keep h = h
  change_found-Holds id j test f (some row) rows at keep h = elim (Bool-cases (test row)) [
    | inl e ↦ rw e (Holds-insert P id j row (f row) rows at (keep row e) h)
    | inr e ↦ rw e h
  ]

  pub after-Holds :
      (id : String) (now : ℕ) (c : Call) (rows : Closes)
      → CallKeeps P id now c
      → Holds P id rows
      → Holds P id (after now c rows)
  unfolding after save claim_due mark_terminal mark_cancelled activate_by_entry_confirmation
      cancel_by_entry_confirmation
  after-Holds id now (save_call close) rows k h = Holds-insert_ne P id close.id close rows k h
  after-Holds id now (claim_call j) rows k h =
      change_found-Holds id j _ _ (lookup j rows) rows refl k h
  after-Holds id now (done_call j c reason) rows k h =
      change_found-Holds id j _ _ (lookup j rows) rows refl k h
  after-Holds id now (skipped_call j c reason) rows k h =
      change_found-Holds id j _ _ (lookup j rows) rows refl k h
  after-Holds id now (cancelled_call j reason) rows k h =
      change_found-Holds id j _ _ (lookup j rows) rows refl k h
  after-Holds id now (activate_call entry) rows k h = Holds-change_first P _ _ id rows k h
  after-Holds id now (cancel_call entry reason) rows k h = Holds-change_first P _ _ id rows k h

change_found-refused :
    (id : String) (test : ScheduledClose → Bool) (f : ScheduledClose → ScheduledClose)
    (rows : Closes) (o : Option ScheduledClose)
    → ((row : ScheduledClose) → o ≡ some row → test row ≡ false)
    → (change_found id test f o rows).0 ≡ false
unfolding change_found
change_found-refused id test f rows none h = refl
change_found-refused id test f rows (some row) h = rw (h row refl) refl

change_found-made :
    (P : ScheduledClose → Type 0) (id : String) (test : ScheduledClose → Bool)
    (f : ScheduledClose → ScheduledClose) (rows : Closes) (o : Option ScheduledClose)
    → ((row : ScheduledClose) → P (f row))
    → (change_found id test f o rows).0 ≡ true
    → Holds P id (change_found id test f o rows).1
unfolding change_found
change_found-made P id test f rows none p h = cc
change_found-made P id test f rows (some row) p h = elim (Bool-cases (test row)) [
  | inl e ↦ rw e (Holds-write P id (f row) rows (p row))
  | inr e ↦ let refusal : false ≡ true = rw e at h in cc
]

-- No claim of a row in P, when no row in P can be claimed at that time.
pub claims-Holds :
    (P : ScheduledClose → Type 0) (id : String) (now : ℕ) (c : Call) (rows : Closes)
    → ((row : ScheduledClose) → P row → claimable now row ≡ false)
    → Holds P id rows
    → claims id now c rows ≡ false
unfolding claims claim_due
claims-Holds P id now (claim_call j) rows shut (row, e, p) = elim (Bool-cases (str_eq j id)) [
  | inr other ↦ rw other
  | inl same ↦ rw same (
      change_found-refused j _ _ rows (lookup j rows) (λ r at.
        let there : some r ≡ some row =
          sym at ∙ ap (λ k. lookup k rows) ((eq_iff j id).0 same) ∙ e in
        let found : row ≡ r = cc in shut r (subst P found p)))
]
claims-Holds P id now (save_call close) rows shut h = refl
claims-Holds P id now (done_call j c reason) rows shut h = refl
claims-Holds P id now (skipped_call j c reason) rows shut h = refl
claims-Holds P id now (cancelled_call j reason) rows shut h = refl
claims-Holds P id now (activate_call entry) rows shut h = refl
claims-Holds P id now (cancel_call entry reason) rows shut h = refl

-- A claim leaves a claimed row.
pub claims_made :
    (P : ScheduledClose → Type 0) (id : String) (now : ℕ) (c : Call) (rows : Closes)
    → ((row : ScheduledClose) → P (claimed_row now row))
    → claims id now c rows ≡ true
    → Holds P id (after now c rows)
unfolding claims after claim_due
claims_made P id now (claim_call j) rows p h = elim (Bool-cases (str_eq j id)) [
  | inr other ↦ let refusal : false ≡ true = rw other at h in cc
  | inl same ↦
      subst (λ k. Holds P k (after now (claim_call j) rows)) ((eq_iff j id).0 same)
        (change_found-made P j _ (claimed_row now) rows (lookup j rows) p (rw same at h))
]
claims_made P id now (save_call close) rows p h = cc
claims_made P id now (done_call j c reason) rows p h = cc
claims_made P id now (skipped_call j c reason) rows p h = cc
claims_made P id now (cancelled_call j reason) rows p h = cc
claims_made P id now (activate_call entry) rows p h = cc
claims_made P id now (cancel_call entry reason) rows p h = cc
