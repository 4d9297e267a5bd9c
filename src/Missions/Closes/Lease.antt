-- ===== src/Missions/Closes/Lease.antt =====
-- Who may close a position by internal/api/scheduled_close.go, and when.
use text.Mathlib.Text.{◌==◌ as str_eq}
use joinanny.Base.{
  ℕ, ◌+◌, ◌≤◌, ◌<◌, ◌≡◌, refl, inl, inr, String, Bool, true, false, not, ◌&&◌, ◌||◌, List, [], ◌∷◌,
  arith, ltb, leb, All, Bool-cases,
}
use joinanny.Base.Rows.{Holds}
use joinanny.Missions.Closes.{
  ScheduledCloseStatus, ScheduledClose, Closes, is_awaiting_entry, is_pending, is_executing,
  claimable, claimed_row, settled_row, cancelled_row, activated_row, scheduled_close_claim_timeout,
}
use joinanny.Missions.Closes.History.{
  Call, save_call, claim_call, done_call, skipped_call, cancelled_call, activate_call, cancel_call,
  after, claims, times_claimed, KeepsId,
}
use joinanny.Missions.Closes.Kept.{CallKeeps, after-Holds, claims-Holds, claims_made}

-- A row whose status lets nobody claim it before the lease that began at t0 has run out.
abbrev HeldStatus : ScheduledCloseStatus → ℕ → ℕ → Type 0
HeldStatus ScheduledCloseStatus.executing t0 updated = t0 ≤ updated
HeldStatus ScheduledCloseStatus.awaiting_entry t0 updated = ⊥
HeldStatus ScheduledCloseStatus.pending t0 updated = ⊥
HeldStatus _ t0 updated = Unit {0}

abbrev Held : ℕ → ScheduledClose → Type 0
Held t0 row = HeldStatus row.status t0 row.updated_at

-- A call falls into the lease that begins at t0.
abbrev pub InLease : ℕ → ℕ × Call → Type 0
InLease t0 (now, c) = (t0 ≤ now) × (now < t0 + scheduled_close_claim_timeout)

held_shut :
    (s : ScheduledCloseStatus) (t0 now updated : ℕ)
    → now < t0 + scheduled_close_claim_timeout
    → HeldStatus s t0 updated
    → (is_pending s || (is_executing s && leb (updated + scheduled_close_claim_timeout) now))
      ≡ false
held_shut ScheduledCloseStatus.executing t0 now updated early h = ground arith
held_shut ScheduledCloseStatus.awaiting_entry t0 now updated early h = absurd h
held_shut ScheduledCloseStatus.pending t0 now updated early h = absurd h
held_shut ScheduledCloseStatus.done t0 now updated early h = refl
held_shut ScheduledCloseStatus.cancelled t0 now updated early h = refl
held_shut ScheduledCloseStatus.skipped t0 now updated early h = refl

and_false : (b : Bool) → (b && false) ≡ false
and_false true = refl
and_false false = refl

and_right : (b c : Bool) → (b && c) ≡ true → c ≡ true
and_right true c h = h
and_right false c h = cc

claimable-Held :
    (t0 now : ℕ) (row : ScheduledClose)
    → now < t0 + scheduled_close_claim_timeout
    → Held t0 row
    → claimable now row ≡ false
unfolding claimable
claimable-Held t0 now row early h =
    rw (held_shut row.status t0 now row.updated_at early h) (and_false (not (ltb now row.due_at)))

held_not_awaiting :
    (s : ScheduledCloseStatus) (t0 updated : ℕ)
    → HeldStatus s t0 updated
    → is_awaiting_entry s ≡ true
    → ⊥
held_not_awaiting ScheduledCloseStatus.awaiting_entry t0 updated h e = h
held_not_awaiting ScheduledCloseStatus.executing t0 updated h e = cc
held_not_awaiting ScheduledCloseStatus.pending t0 updated h e = h
held_not_awaiting ScheduledCloseStatus.done t0 updated h e = cc
held_not_awaiting ScheduledCloseStatus.cancelled t0 updated h e = cc
held_not_awaiting ScheduledCloseStatus.skipped t0 updated h e = cc

call-Held :
    (id : String) (t0 now : ℕ) (c : Call)
    → InLease t0 (now, c)
    → KeepsId id (now, c)
    → CallKeeps (Held t0) id now c
unfolding claimed_row settled_row cancelled_row activated_row
call-Held id t0 now (save_call close) (l, u) k = k
call-Held id t0 now (claim_call j) (l, u) k = λ row e h. l
call-Held id t0 now (done_call j c reason) (l, u) k = λ row e h. tt
call-Held id t0 now (skipped_call j c reason) (l, u) k = λ row e h. tt
call-Held id t0 now (cancelled_call j reason) (l, u) k = λ row e h. tt
call-Held id t0 now (activate_call entry) (l, u) k = λ row e h. absurd (
    held_not_awaiting row.status t0 row.updated_at h
      (and_right (str_eq row.entry_confirmation_id entry) (is_awaiting_entry row.status) e))
call-Held id t0 now (cancel_call entry reason) (l, u) k = λ row e h. tt

leased :
    (id : String) (t0 : ℕ) (cs : List (ℕ × Call)) (rows : Closes)
    → All (InLease t0) cs
    → All (KeepsId id) cs
    → Holds (Held t0) id rows
    → times_claimed id cs rows ≡ 0
unfolding times_claimed
leased id t0 [] rows l k h = refl
leased id t0 ((now, c) ∷ cs) rows (l, ls) (k, ks) h =
    rw (claims-Holds (Held t0) id now c rows (λ row p. claimable-Held t0 now row l.1 p) h) (
      leased id t0 cs (after now c rows) ls ks
        (after-Holds (Held t0) id now c rows (call-Held id t0 now c l k) h))

-- A claim is a lease: whatever the store holds, in every history of calls that fall into one span of
-- the claim timeout and save no close under the id, whatever their order in time, the close of the
-- id is claimed at most once.
pub times_claimed-le :
    (id : String) (t0 : ℕ) (cs : List (ℕ × Call)) (rows : Closes)
    → All (InLease t0) cs
    → All (KeepsId id) cs
    → times_claimed id cs rows ≤ 1
unfolding times_claimed claimed_row
times_claimed-le id t0 [] rows l k = omega arith
times_claimed-le id t0 ((now, c) ∷ cs) rows (l, ls) (k, ks) =
    elim (Bool-cases (claims id now c rows)) [
      | inl out ↦ rw out (
          omega (
            arith,
            leased id t0 cs (after now c rows) ls ks
                (claims_made (Held t0) id now c rows (λ row. l.0) out),
          ))
      | inr kept ↦ rw kept (times_claimed-le id t0 cs (after now c rows) ls ks)
    ]

-- Waiting for its entry, or cancelled.
abbrev WaitingStatus : ScheduledCloseStatus → Type 0
WaitingStatus ScheduledCloseStatus.awaiting_entry = Unit {0}
WaitingStatus ScheduledCloseStatus.cancelled = Unit {0}
WaitingStatus _ = ⊥

-- A close of the entry that still waits for it, or is cancelled.
abbrev pub Waiting : String → ScheduledClose → Type 0
Waiting entry row = (row.entry_confirmation_id ≡ entry) × WaitingStatus row.status

-- A call does not activate the closes of the entry.
abbrev pub NotActivated : String → ℕ × Call → Type 0
NotActivated entry (now, activate_call e) = str_eq entry e ≡ false
NotActivated entry (now, save_call close) = Unit {0}
NotActivated entry (now, claim_call j) = Unit {0}
NotActivated entry (now, done_call j c reason) = Unit {0}
NotActivated entry (now, skipped_call j c reason) = Unit {0}
NotActivated entry (now, cancelled_call j reason) = Unit {0}
NotActivated entry (now, cancel_call e reason) = Unit {0}

waiting_shut :
    (s : ScheduledCloseStatus) → WaitingStatus s → (is_pending s ≡ false) × (is_executing s ≡ false)
waiting_shut ScheduledCloseStatus.awaiting_entry w = (refl, refl)
waiting_shut ScheduledCloseStatus.cancelled w = (refl, refl)
waiting_shut ScheduledCloseStatus.pending w = absurd w
waiting_shut ScheduledCloseStatus.executing w = absurd w
waiting_shut ScheduledCloseStatus.done w = absurd w
waiting_shut ScheduledCloseStatus.skipped w = absurd w

claimable-Waiting :
    (entry : String) (now : ℕ) (row : ScheduledClose)
    → Waiting entry row
    → claimable now row ≡ false
unfolding claimable
claimable-Waiting entry now row (e, w) =
    let shut = waiting_shut row.status w in
    rw (shut.0, shut.1) (and_false (not (ltb now row.due_at)))

call-Waiting :
    (id entry : String) (now : ℕ) (c : Call)
    → NotActivated entry (now, c)
    → KeepsId id (now, c)
    → CallKeeps (Waiting entry) id now c
unfolding claimed_row settled_row cancelled_row activated_row
call-Waiting id entry now (save_call close) n k = k
call-Waiting id entry now (claim_call j) n k =
    λ row e w. let refusal : false ≡ true = rw (claimable-Waiting entry now row w) at e in cc
call-Waiting id entry now (done_call j c reason) n k =
    λ row e w. let refusal : false ≡ true = rw (waiting_shut row.status w.1).1 at e in cc
call-Waiting id entry now (skipped_call j c reason) n k =
    λ row e w. let refusal : false ≡ true = rw (waiting_shut row.status w.1).1 at e in cc
call-Waiting id entry now (cancelled_call j reason) n k = λ row e w. (w.0, tt)
call-Waiting id entry now (activate_call e') n k =
    λ row e w. let refusal : false ≡ true = rw (w.0, n) at e in cc
call-Waiting id entry now (cancel_call e' reason) n k = λ row e w. (w.0, tt)

-- No close before its entry: a close that waits for its entry is not claimed in any history of calls
-- in which no call activates the closes of that entry and no close is saved under the id.
pub times_claimed-Waiting :
    (id entry : String) (cs : List (ℕ × Call)) (rows : Closes)
    → Holds (Waiting entry) id rows
    → All (NotActivated entry) cs
    → All (KeepsId id) cs
    → times_claimed id cs rows ≡ 0
unfolding times_claimed
times_claimed-Waiting id entry [] rows h n k = refl
times_claimed-Waiting id entry ((now, c) ∷ cs) rows h (n, ns) (k, ks) =
    rw (claims-Holds (Waiting entry) id now c rows (λ row p. claimable-Waiting entry now row p) h) (
      times_claimed-Waiting id entry cs (after now c rows)
        (after-Holds (Waiting entry) id now c rows (call-Waiting id entry now c n k) h) ns ks)
