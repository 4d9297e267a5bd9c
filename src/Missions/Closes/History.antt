-- ===== src/Missions/Closes/History.antt =====
-- The calls of the store of internal/api/scheduled_close.go.
use text.Mathlib.Text.{◌==◌ as str_eq}
use joinanny.Base.{ℕ, suc, ◌≡◌, String, Bool, false, ◌&&◌, List, [], ◌∷◌, if◌then◌else◌}
use joinanny.Missions.Closes.{
  ScheduledClose, Closes, save, claim_due, mark_done, mark_skipped, mark_cancelled,
  activate_by_entry_confirmation, cancel_by_entry_confirmation,
}

-- A call of the store.
pub data Call : Type 0 where
  save_call : ScheduledClose → Call
  claim_call : String → Call
  done_call : String → String → String → Call
  skipped_call : String → String → String → Call
  cancelled_call : String → String → Call
  activate_call : String → Call
  cancel_call : String → String → Call

-- The rows after a call made at a time.
unfoldable pub after : ℕ → Call → Closes → Closes
after now (save_call close) rows = save close rows
after now (claim_call id) rows = (claim_due id now rows).1
after now (done_call id c reason) rows = (mark_done id c reason now rows).1
after now (skipped_call id c reason) rows = (mark_skipped id c reason now rows).1
after now (cancelled_call id reason) rows = (mark_cancelled id reason now rows).1
after now (activate_call entry) rows = (activate_by_entry_confirmation entry now rows).1
after now (cancel_call entry reason) rows = (cancel_by_entry_confirmation entry reason now rows).1

-- Whether a call claims the close of an id.
unfoldable pub claims : String → ℕ → Call → Closes → Bool
claims id now (claim_call j) rows = str_eq j id && (claim_due j now rows).0
claims id now (save_call close) rows = false
claims id now (done_call j c reason) rows = false
claims id now (skipped_call j c reason) rows = false
claims id now (cancelled_call j reason) rows = false
claims id now (activate_call entry) rows = false
claims id now (cancel_call entry reason) rows = false

-- How many calls of a history do.
unfoldable pub times_claimed : String → List (ℕ × Call) → Closes → ℕ
times_claimed id [] rows = 0
times_claimed id ((now, c) ∷ cs) rows =
    let rest = times_claimed id cs (after now c rows) in
    if claims id now c rows then suc rest else rest

-- A call saves no close under the id.
abbrev pub KeepsId : String → ℕ × Call → Type 0
KeepsId id (now, save_call close) = str_eq close.id id ≡ false
KeepsId id (now, claim_call j) = Unit {0}
KeepsId id (now, done_call j c reason) = Unit {0}
KeepsId id (now, skipped_call j c reason) = Unit {0}
KeepsId id (now, cancelled_call j reason) = Unit {0}
KeepsId id (now, activate_call entry) = Unit {0}
KeepsId id (now, cancel_call entry reason) = Unit {0}
