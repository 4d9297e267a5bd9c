-- ===== src/Missions/Armed.antt =====
-- internal/api/armed_mission.go: `ArmedMission` and its in-memory store. Times are numbers of
-- nanoseconds, 0 is the zero time; a nil pointer to a time is `none`.
pub mod History
pub mod Once
use joinanny.Base.{
  ℕ, ◌+◌, ◌*◌, suc, String, Bool, true, false, not, ◌&&◌, ◌||◌, Option, none, some, List, [], ◌∷◌,
  ltb, leb, ◌==◌, if◌then◌else◌,
}
use joinanny.Base.Int.{ℤ}
use joinanny.Base.Table.{Table, lookup, insert}
use joinanny.Base.Rows.{change_all}
use text.Mathlib.Text.{◌==◌ as str_eq}

pub data ArmedMissionStatus : Type 0 where
  armed triggered expired disarmed : ArmedMissionStatus

pub record ArmedMission : Type 0 where
  pub id : String
  pub user_key : String
  pub user_id : ℤ
  pub symbol : String
  pub strategy : String
  pub side : String
  pub capital_usdt : String
  pub capital_risk_pct : ℤ
  pub leverage_use_pct : ℤ
  pub duration : String
  pub duration_window_seconds : ℤ
  pub use_ai : Bool
  pub status : ArmedMissionStatus
  pub arm_reason : String
  pub trigger_reason : String
  pub idempotency_key : String
  pub triggered_confirmation_id : String
  pub armed_at : ℕ
  pub triggered_at : Option ℕ
  pub expires_at : ℕ
  pub purge_at : Option ℕ
  pub created_at : ℕ
  pub updated_at : ℕ

abbrev pub Missions : Type 0
Missions = Table ArmedMission

abbrev pub is_armed : ArmedMissionStatus → Bool
is_armed ArmedMissionStatus.armed = true
is_armed _ = false

abbrev pub is_triggered : ArmedMissionStatus → Bool
is_triggered ArmedMissionStatus.triggered = true
is_triggered _ = false

-- `armedMissionRetention` after the end of the window.
abbrev pub armed_mission_purge_at : ℕ → Option ℕ
armed_mission_purge_at expires_at =
    if expires_at == 0 then none else some (expires_at + 90 * 24 * 3600 * 1000000000)

abbrev pub or_else : Option ℕ → Option ℕ → Option ℕ
or_else none d = d
or_else (some t) d = some t

-- `Save`.
unfoldable pub save : ArmedMission → Missions → Missions
save mission rows = insert mission.id mission rows

-- The row that `Disarm` and `MarkExpired` write.
pub ended : ArmedMissionStatus → ℕ → ArmedMission → ArmedMission
ended status now row = record row {
  status = status;
  updated_at = now;
  purge_at = or_else row.purge_at (armed_mission_purge_at row.expires_at);
}

pub disarm_found :
    String → String → ℕ → Option ArmedMission → Missions → Option ArmedMission × Missions
disarm_found user_key id now none rows = (none, rows)
disarm_found user_key id now (some row) rows =
    if not (str_eq row.user_key user_key)
    then (none, rows)
    else if is_armed row.status
    then (
      some (ended ArmedMissionStatus.disarmed now row),
      insert id (ended ArmedMissionStatus.disarmed now row) rows,
    )
    else (some row, rows)

-- `Disarm`; its row, when it is found and the user's.
unfoldable pub disarm : String → String → ℕ → Missions → Option ArmedMission × Missions
disarm user_key id now rows = disarm_found user_key id now (lookup id rows) rows

-- The other changes of a row: its new value when the test passes. They answer whether they made it.
unfoldable pub change_found :
    String
    → (ArmedMission → Bool)
    → (ArmedMission → ArmedMission)
    → Option ArmedMission
    → Missions
    → Bool × Missions
change_found id test f none rows = (false, rows)
change_found id test f (some row) rows =
    if test row then (true, insert id (f row) rows) else (false, rows)

-- `MarkExpired`.
unfoldable pub mark_expired : String → ℕ → Missions → Bool × Missions
mark_expired id now rows =
    change_found id (λ row. is_armed row.status) (ended ArmedMissionStatus.expired now)
      (lookup id rows) rows

pub triggered_row : String → String → String → ℕ → ArmedMission → ArmedMission
triggered_row side reason confirmation_id now row = record row {
  status = ArmedMissionStatus.triggered;
  side = side;
  trigger_reason = reason;
  triggered_confirmation_id = confirmation_id;
  triggered_at = some now;
  purge_at = none;
  updated_at = now;
}

-- `MarkTriggered`.
unfoldable pub mark_triggered : String → String → String → String → ℕ → Missions → Bool × Missions
mark_triggered id side reason confirmation_id now rows =
    change_found id (λ row. is_armed row.status && ltb now row.expires_at)
      (triggered_row side reason confirmation_id now) (lookup id rows) rows

pub confirmation_fits : String → ArmedMission → Bool
confirmation_fits confirmation_id row =
    is_triggered row.status
    && (str_eq row.triggered_confirmation_id ""
        || str_eq row.triggered_confirmation_id confirmation_id)

-- `SetTriggeredConfirmation`.
unfoldable pub set_triggered_confirmation : String → String → ℕ → Missions → Bool × Missions
set_triggered_confirmation id confirmation_id now rows =
    change_found id (confirmation_fits confirmation_id)
      (λ row. record row { triggered_confirmation_id = confirmation_id; updated_at = now })
      (lookup id rows) rows

-- `ExtendWindow`.
unfoldable pub extend_window : String → String → ℤ → ℕ → Option ℕ → ℕ → Missions → Bool × Missions
extend_window id duration_key window_seconds expires_at purge_at now rows =
    change_found id (λ row. is_armed row.status)
      (λ row. record row {
        duration = duration_key;
        duration_window_seconds = window_seconds;
        expires_at = expires_at;
        purge_at = purge_at;
        updated_at = now;
      })
      (lookup id rows) rows

abbrev pub is_stale : ℕ → ArmedMission → Bool
is_stale now row = is_armed row.status && not (ltb now row.expires_at)

pub expire_row : ℕ → ArmedMission → ArmedMission
expire_row now row =
    if is_stale now row
    then record row { status = ArmedMissionStatus.expired; updated_at = now }
    else row

pub count_stale : ℕ → Missions → ℕ
count_stale now [] = 0
count_stale now ((_, row) ∷ rows) =
    let rest = count_stale now rows in if is_stale now row then suc rest else rest

-- `ExpireStale`: how many rows expired, and the rows.
unfoldable pub expire_stale : ℕ → Missions → ℕ × Missions
expire_stale now rows = (count_stale now rows, change_all (expire_row now) rows)
