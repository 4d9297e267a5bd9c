-- ===== src/Missions/Armed/History.antt =====
-- The calls of the store of internal/api/armed_mission.go, and what they keep of a mission that is no
-- longer armed.
use text.Mathlib.Text.{◌==◌ as str_eq}
use joinanny.Base.{
  ℕ, suc, ◌≡◌, refl, inl, inr, String, Bool, true, false, ◌&&◌, Option, none, some, List, [], ◌∷◌,
  ltb, if◌then◌else◌, All, Bool-cases,
}
use joinanny.Base.Int.{ℤ}
use joinanny.Base.Table.{lookup}
use joinanny.Base.Rows.{Holds, Holds-insert, Holds-insert_ne, Holds-change_all}
use joinanny.Missions.Armed.{
  ArmedMissionStatus, ArmedMission, Missions, is_armed, save, ended, disarm_found, disarm,
  change_found, mark_expired, mark_triggered, confirmation_fits, set_triggered_confirmation,
  extend_window, expire_row, expire_stale,
}

-- A call of the store.
pub data Call : Type 0 where
  save_call : ArmedMission → Call
  disarm_call : String → String → Call
  expired_call : String → Call
  trigger_call : String → String → String → String → Call
  confirmation_call : String → String → Call
  extend_call : String → String → ℤ → ℕ → Option ℕ → Call
  sweep_call : Call

-- The rows after a call made at a time.
unfoldable pub after : ℕ → Call → Missions → Missions
after now (save_call mission) rows = save mission rows
after now (disarm_call user id) rows = (disarm user id now rows).1
after now (expired_call id) rows = (mark_expired id now rows).1
after now (trigger_call id side reason c) rows = (mark_triggered id side reason c now rows).1
after now (confirmation_call id c) rows = (set_triggered_confirmation id c now rows).1
after now (extend_call id key secs end purge) rows =
    (extend_window id key secs end purge now rows).1
after now sweep_call rows = (expire_stale now rows).1

unfoldable pub after_all : List (ℕ × Call) → Missions → Missions
after_all [] rows = rows
after_all ((now, c) ∷ cs) rows = after_all cs (after now c rows)

-- Whether a call triggers the mission of an id.
unfoldable pub triggers : String → ℕ → Call → Missions → Bool
triggers id now (trigger_call j side reason c) rows =
    str_eq j id && (mark_triggered j side reason c now rows).0
triggers id now (save_call mission) rows = false
triggers id now (disarm_call user j) rows = false
triggers id now (expired_call j) rows = false
triggers id now (confirmation_call j c) rows = false
triggers id now (extend_call j key secs end purge) rows = false
triggers id now sweep_call rows = false

-- How many calls of a history do.
unfoldable pub times_triggered : String → List (ℕ × Call) → Missions → ℕ
times_triggered id [] rows = 0
times_triggered id ((now, c) ∷ cs) rows =
    let rest = times_triggered id cs (after now c rows) in
    if triggers id now c rows then suc rest else rest

-- A call saves no mission under the id.
abbrev pub KeepsId : String → ℕ × Call → Type 0
KeepsId id (now, save_call mission) = str_eq mission.id id ≡ false
KeepsId id (now, disarm_call user j) = Unit {0}
KeepsId id (now, expired_call j) = Unit {0}
KeepsId id (now, trigger_call j side reason c) = Unit {0}
KeepsId id (now, confirmation_call j c) = Unit {0}
KeepsId id (now, extend_call j key secs end purge) = Unit {0}
KeepsId id (now, sweep_call) = Unit {0}

abbrev pub linked_to : String → ℕ → ArmedMission → ArmedMission
linked_to c now row = record row { triggered_confirmation_id = c; updated_at = now }

-- What no call changes of a mission that is no longer armed.
module _ (P : ArmedMission → Type 0)
    (locked : (row : ArmedMission) → P row → is_armed row.status ≡ false)
    (linked : (c : String) (now : ℕ) (row : ArmedMission)
      → confirmation_fits c row ≡ true
      → P row
      → P (linked_to c now row)) where
  not_armed : (row : ArmedMission) (b : Bool) → (is_armed row.status && b) ≡ true → P row → ⊥
  not_armed row b h p = let refusal : false ≡ true = rw (locked row p) at h in cc

  not_armed_at : (row : ArmedMission) → is_armed row.status ≡ true → P row → ⊥
  not_armed_at row h p = let refusal : false ≡ true = rw (locked row p) at h in cc

  change_found-Holds :
      (id j : String) (test : ArmedMission → Bool) (f : ArmedMission → ArmedMission)
      (o : Option ArmedMission) (rows : Missions)
      → lookup j rows ≡ o
      → ((row : ArmedMission) → test row ≡ true → P row → P (f row))
      → Holds P id rows
      → Holds P id (change_found j test f o rows).1
  unfolding change_found
  change_found-Holds id j test f none rows at keep h = h
  change_found-Holds id j test f (some row) rows at keep h = elim (Bool-cases (test row)) [
    | inl e ↦ rw e (Holds-insert P id j row (f row) rows at (keep row e) h)
    | inr e ↦ rw e h
  ]

  disarm_found-Holds :
      (id user j : String) (now : ℕ) (o : Option ArmedMission) (rows : Missions)
      → lookup j rows ≡ o
      → Holds P id rows
      → Holds P id (disarm_found user j now o rows).1
  unfolding disarm_found
  disarm_found-Holds id user j now none rows at h = h
  disarm_found-Holds id user j now (some row) rows at h =
      elim (Bool-cases (str_eq row.user_key user)) [
        | inr e ↦ rw e h
        | inl e ↦ elim (Bool-cases (is_armed row.status)) [
          | inr out ↦ rw (e, out) h
          | inl in_wait ↦
              rw (e, in_wait)
                (Holds-insert P id j row (ended ArmedMissionStatus.disarmed now row) rows at
                  (λ p. absurd (not_armed_at row in_wait p)) h)
        ]
      ]

  expire_row-keeps : (now : ℕ) (row : ArmedMission) → P row → P (expire_row now row)
  unfolding expire_row
  expire_row-keeps now row p = rw (locked row p) p

  pub after-Holds :
      (id : String) (now : ℕ) (c : Call) (rows : Missions)
      → KeepsId id (now, c)
      → Holds P id rows
      → Holds P id (after now c rows)
  unfolding after save disarm mark_expired mark_triggered set_triggered_confirmation extend_window
      expire_stale
  after-Holds id now (save_call mission) rows k h = Holds-insert_ne P id mission.id mission rows k h
  after-Holds id now (disarm_call user j) rows k h =
      disarm_found-Holds id user j now (lookup j rows) rows refl h
  after-Holds id now (expired_call j) rows k h =
      change_found-Holds id j _ _ (lookup j rows) rows refl
        (λ row e p. absurd (not_armed_at row e p)) h
  after-Holds id now (trigger_call j side reason c) rows k h =
      change_found-Holds id j _ _ (lookup j rows) rows refl
        (λ row e p. absurd (not_armed row (ltb now row.expires_at) e p)) h
  after-Holds id now (confirmation_call j c) rows k h =
      change_found-Holds id j _ _ (lookup j rows) rows refl (linked c now) h
  after-Holds id now (extend_call j key secs end purge) rows k h =
      change_found-Holds id j _ _ (lookup j rows) rows refl
        (λ row e p. absurd (not_armed_at row e p)) h
  after-Holds id now sweep_call rows k h =
      Holds-change_all P (expire_row now) id rows (expire_row-keeps now) h

  pub after_all-Holds :
      (id : String) (cs : List (ℕ × Call)) (rows : Missions)
      → All (KeepsId id) cs
      → Holds P id rows
      → Holds P id (after_all cs rows)
  unfolding after_all
  after_all-Holds id [] rows k h = h
  after_all-Holds id ((now, c) ∷ cs) rows (k, ks) h =
      after_all-Holds id cs (after now c rows) ks (after-Holds id now c rows k h)
