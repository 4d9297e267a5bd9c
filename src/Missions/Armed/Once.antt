-- ===== src/Missions/Armed/Once.antt =====
-- A mission of internal/api/armed_mission.go enters the market at most once, with one confirmation.
use text.Mathlib.Text.{◌==◌ as str_eq}
use text.Mathlib.TextEquality.{eq_iff}
use joinanny.Base.{
  ℕ, ◌≤◌, ◌≡◌, refl, sym, ap, ◌∙◌, subst, inl, inr, String, Bool, true, false, Option, none, some,
  List, [], ◌∷◌, arith, All, Bool-cases,
}
use joinanny.Base.Table.{lookup}
use joinanny.Base.Rows.{Holds, Holds-write}
use joinanny.Missions.Armed.{
  ArmedMissionStatus, ArmedMission, Missions, is_armed, change_found, triggered_row, mark_triggered,
  confirmation_fits,
}
use joinanny.Missions.Armed.History.{
  Call, save_call, disarm_call, expired_call, trigger_call, confirmation_call, extend_call,
  sweep_call, after, after_all, triggers, times_triggered, KeepsId, linked_to, after-Holds,
  after_all-Holds,
}

abbrev pub NotArmed : ArmedMission → Type 0
NotArmed row = is_armed row.status ≡ false

-- Triggered, and linked to the confirmation.
abbrev pub EnteredAs : String → ArmedMission → Type 0
EnteredAs c row = (row.status ≡ ArmedMissionStatus.triggered) × (row.triggered_confirmation_id ≡ c)

change_found-refused :
    (id : String) (test : ArmedMission → Bool) (f : ArmedMission → ArmedMission) (rows : Missions)
    (o : Option ArmedMission)
    → ((row : ArmedMission) → o ≡ some row → test row ≡ false)
    → (change_found id test f o rows).0 ≡ false
unfolding change_found
change_found-refused id test f rows none h = refl
change_found-refused id test f rows (some row) h = rw (h row refl) refl

change_found-made :
    (P : ArmedMission → Type 0) (id : String) (test : ArmedMission → Bool)
    (f : ArmedMission → ArmedMission) (rows : Missions) (o : Option ArmedMission)
    → ((row : ArmedMission) → P (f row))
    → (change_found id test f o rows).0 ≡ true
    → Holds P id (change_found id test f o rows).1
unfolding change_found
change_found-made P id test f rows none p h = cc
change_found-made P id test f rows (some row) p h = elim (Bool-cases (test row)) [
  | inl e ↦ rw e (Holds-write P id (f row) rows (p row))
  | inr e ↦ let refusal : false ≡ true = rw e at h in cc
]

triggers-NotArmed :
    (id : String) (now : ℕ) (c : Call) (rows : Missions)
    → Holds NotArmed id rows
    → triggers id now c rows ≡ false
unfolding triggers mark_triggered
triggers-NotArmed id now (trigger_call j side reason c) rows (row, e, p) =
    elim (Bool-cases (str_eq j id)) [
      | inr other ↦ rw other
      | inl same ↦ rw same (
          change_found-refused j _ _ rows (lookup j rows) (λ r at.
            let there : some r ≡ some row =
              sym at ∙ ap (λ k. lookup k rows) ((eq_iff j id).0 same) ∙ e in
            let found : r ≡ row = cc in rw (found, p) refl))
    ]
triggers-NotArmed id now (save_call mission) rows h = refl
triggers-NotArmed id now (disarm_call user j) rows h = refl
triggers-NotArmed id now (expired_call j) rows h = refl
triggers-NotArmed id now (confirmation_call j c) rows h = refl
triggers-NotArmed id now (extend_call j key secs end purge) rows h = refl
triggers-NotArmed id now sweep_call rows h = refl

triggers_leaves :
    (id : String) (now : ℕ) (c : Call) (rows : Missions)
    → triggers id now c rows ≡ true
    → Holds NotArmed id (after now c rows)
unfolding triggers after mark_triggered triggered_row
triggers_leaves id now (trigger_call j side reason c) rows h = elim (Bool-cases (str_eq j id)) [
  | inr other ↦ let refusal : false ≡ true = rw other at h in cc
  | inl same ↦
      subst (λ k. Holds NotArmed k (after now (trigger_call j side reason c) rows))
        ((eq_iff j id).0 same)
        (change_found-made NotArmed j _ (triggered_row side reason c now) rows (lookup j rows)
          (λ row. refl) (rw same at h))
]
triggers_leaves id now (save_call mission) rows h = cc
triggers_leaves id now (disarm_call user j) rows h = cc
triggers_leaves id now (expired_call j) rows h = cc
triggers_leaves id now (confirmation_call j c) rows h = cc
triggers_leaves id now (extend_call j key secs end purge) rows h = cc
triggers_leaves id now sweep_call rows h = cc

never_again :
    (id : String) (cs : List (ℕ × Call)) (rows : Missions)
    → All (KeepsId id) cs
    → Holds NotArmed id rows
    → times_triggered id cs rows ≡ 0
unfolding times_triggered
never_again id [] rows k h = refl
never_again id ((now, c) ∷ cs) rows (k, ks) h = rw (triggers-NotArmed id now c rows h) (
    never_again id cs (after now c rows) ks
      (after-Holds NotArmed (λ row p. p) (λ c' t row fits p. p) id now c rows k h))

-- One entry for a mission: whatever the store holds, in every history of calls in which no mission is
-- saved under the id again, at most one call triggers the mission of the id.
pub times_triggered-le :
    (id : String) (cs : List (ℕ × Call)) (rows : Missions)
    → All (KeepsId id) cs
    → times_triggered id cs rows ≤ 1
unfolding times_triggered
times_triggered-le id [] rows k = omega arith
times_triggered-le id ((now, c) ∷ cs) rows (k, ks) = elim (Bool-cases (triggers id now c rows)) [
  | inl out ↦
      rw out
        (omega (arith, never_again id cs (after now c rows) ks (triggers_leaves id now c rows out)))
  | inr kept ↦ rw kept (times_triggered-le id cs (after now c rows) ks)
]

fits-EnteredAs :
    (c : String) (row : ArmedMission) (c' : String) (now : ℕ)
    → str_eq c "" ≡ false
    → confirmation_fits c' row ≡ true
    → EnteredAs c row
    → EnteredAs c (linked_to c' now row)
unfolding confirmation_fits
fits-EnteredAs c row c' now set fits (s, e) = elim (Bool-cases (str_eq c c')) [
  | inl same ↦ (s, sym ((eq_iff c c').0 same))
  | inr differ ↦ let refusal : false ≡ true = rw (s, e, set, differ) at fits in cc
]

-- One confirmation for a mission: when a call has triggered the mission with a confirmation id that
-- is not empty, then after every history of calls in which no mission is saved under the id again,
-- the mission is still triggered and still linked to that confirmation.
pub mark_triggered-after_all :
    (id side reason c : String) (now : ℕ) (cs : List (ℕ × Call)) (rows : Missions)
    → str_eq c "" ≡ false
    → (mark_triggered id side reason c now rows).0 ≡ true
    → All (KeepsId id) cs
    → Holds (EnteredAs c) id (after_all cs (mark_triggered id side reason c now rows).1)
unfolding mark_triggered triggered_row
mark_triggered-after_all id side reason c now cs rows set h ks =
    after_all-Holds (EnteredAs c) (λ row p. ap is_armed p.0)
      (λ c' t row fits p. fits-EnteredAs c row c' t set fits p) id cs
      (mark_triggered id side reason c now rows).1 ks
      (change_found-made (EnteredAs c) id _ (triggered_row side reason c now) rows (lookup id rows)
        (λ row. (refl, refl)) h)
