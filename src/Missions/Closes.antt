-- ===== src/Missions/Closes.antt =====
-- internal/api/scheduled_close.go: `ScheduledClose` and its in-memory store. Times are numbers of
-- nanoseconds since the zero time; a nil time is `none`. The lists that only read the store are left
-- out.
pub mod History
pub mod Kept
pub mod Lease
use joinanny.Base.{
  ℕ, ◌+◌, ◌-◌, ◌*◌, ◌%◌, ◌^◌, String, Bool, true, false, not, ◌&&◌, ◌||◌, Option, none, some, ltb,
  leb, ◌==◌, if◌then◌else◌,
}
use joinanny.Base.Text.{trim_space}
use joinanny.Base.Int.{ℤ, pos, negsuc}
use joinanny.Base.Table.{Table, lookup, insert}
use joinanny.Base.Rows.{change_first}
use text.Mathlib.Text.{◌==◌ as str_eq}

pub data ScheduledCloseStatus : Type 0 where
  awaiting_entry pending executing done cancelled skipped : ScheduledCloseStatus

-- `ScheduledCloseClaimTimeout`, five minutes.
abbrev pub scheduled_close_claim_timeout : ℕ
scheduled_close_claim_timeout = 300000000000

pub record ScheduledClose : Type 0 where
  pub id : String
  pub user_key : String
  pub user_id : ℤ
  pub symbol : String
  pub side : String
  pub due_at : ℕ
  pub window_seconds : ℕ
  pub entry_confirmation_id : String
  pub status : ScheduledCloseStatus
  pub confirmation_id : String
  pub reason : String
  pub created_at : ℕ
  pub updated_at : ℕ
  pub purge_at : Option ℕ

abbrev pub Closes : Type 0
Closes = Table ScheduledClose

abbrev pub is_awaiting_entry : ScheduledCloseStatus → Bool
is_awaiting_entry ScheduledCloseStatus.awaiting_entry = true
is_awaiting_entry _ = false

abbrev pub is_pending : ScheduledCloseStatus → Bool
is_pending ScheduledCloseStatus.pending = true
is_pending _ = false

abbrev pub is_executing : ScheduledCloseStatus → Bool
is_executing ScheduledCloseStatus.executing = true
is_executing _ = false

-- `scheduledClosePurgeAt`.
abbrev pub scheduled_close_purge_at : ℕ → Option ℕ
scheduled_close_purge_at now = if now == 0 then none else some (now + 90 * 24 * 3600 * 1000000000)

-- `Save`.
unfoldable pub save : ScheduledClose → Closes → Closes
save close rows = insert close.id close rows

-- The changes of the row of an id when it passes a test. They answer whether they were made.
unfoldable pub change_found :
    String
    → (ScheduledClose → Bool)
    → (ScheduledClose → ScheduledClose)
    → Option ScheduledClose
    → Closes
    → Bool × Closes
change_found id test f none rows = (false, rows)
change_found id test f (some row) rows =
    if test row then (true, insert id (f row) rows) else (false, rows)

-- A claim that its holder has kept for the whole timeout.
abbrev pub is_stale : ℕ → ScheduledClose → Bool
is_stale now row =
    is_executing row.status && leb (row.updated_at + scheduled_close_claim_timeout) now

pub claimable : ℕ → ScheduledClose → Bool
claimable now row = not (ltb now row.due_at) && (is_pending row.status || is_stale now row)

pub claimed_row : ℕ → ScheduledClose → ScheduledClose
claimed_row now row = record row { status = ScheduledCloseStatus.executing; updated_at = now }

-- `ClaimDue`.
unfoldable pub claim_due : String → ℕ → Closes → Bool × Closes
claim_due id now rows = change_found id (claimable now) (claimed_row now) (lookup id rows) rows

pub settled_row : ScheduledCloseStatus → String → String → ℕ → ScheduledClose → ScheduledClose
settled_row status confirmation_id reason now row = record row {
  status = status;
  confirmation_id = confirmation_id;
  reason = trim_space reason;
  updated_at = now;
  purge_at = scheduled_close_purge_at now;
}

-- `markTerminal`.
unfoldable pub mark_terminal :
    String → ScheduledCloseStatus → String → String → ℕ → Closes → Bool × Closes
mark_terminal id status confirmation_id reason now rows =
    change_found id (λ row. is_executing row.status) (settled_row status confirmation_id reason now)
      (lookup id rows) rows

-- `MarkDone`.
abbrev pub mark_done : String → String → String → ℕ → Closes → Bool × Closes
mark_done id = mark_terminal id ScheduledCloseStatus.done

-- `MarkSkipped`.
abbrev pub mark_skipped : String → String → String → ℕ → Closes → Bool × Closes
mark_skipped id = mark_terminal id ScheduledCloseStatus.skipped

pub cancelled_row : String → ℕ → ScheduledClose → ScheduledClose
cancelled_row reason now row = record row {
  status = ScheduledCloseStatus.cancelled;
  reason = trim_space reason;
  updated_at = now;
  purge_at = scheduled_close_purge_at now;
}

-- `MarkCancelled`.
unfoldable pub mark_cancelled : String → String → ℕ → Closes → Bool × Closes
mark_cancelled id reason now rows =
    change_found id (λ row. is_pending row.status || is_executing row.status)
      (cancelled_row reason now) (lookup id rows) rows

-- A time moved by a `time.Duration` of so many seconds: 64 bits of nanoseconds, with a sign.
abbrev pub add_seconds : ℕ → ℕ → ℕ
add_seconds t seconds =
    let d = seconds * 1000000000 % 2 ^ 64 in if ltb d (2 ^ 63) then t + d else t - (2 ^ 64 - d)

pub activated_row : ℕ → ScheduledClose → ScheduledClose
activated_row now row = record row {
  status = ScheduledCloseStatus.pending;
  due_at = add_seconds now row.window_seconds;
  updated_at = now;
}

-- `ActivateByEntryConfirmation`.
unfoldable pub activate_by_entry_confirmation : String → ℕ → Closes → Option ScheduledClose × Closes
activate_by_entry_confirmation entry now rows =
    change_first (λ row. str_eq row.entry_confirmation_id entry && is_awaiting_entry row.status)
      (activated_row now) rows

-- `CancelByEntryConfirmation`.
unfoldable pub cancel_by_entry_confirmation :
    String → String → ℕ → Closes → Option ScheduledClose × Closes
cancel_by_entry_confirmation entry reason now rows =
    change_first
      (λ row.
        str_eq row.entry_confirmation_id entry
        && (is_awaiting_entry row.status || is_pending row.status))
      (cancelled_row reason now) rows
