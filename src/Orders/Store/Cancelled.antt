-- ===== src/Orders/Store/Cancelled.antt =====
-- A cancel of a confirmation that is being executed, in the in-memory store of
-- internal/orders/service.go.
use joinanny.Base.{ℕ, ◌≡◌, refl, String, true, none, ltb}
use joinanny.Base.Table.{insert, lookup-insert_self}
use joinanny.Orders.Store.{
  ConfirmationStatus, ConfirmationRecord, ExecutionResult, Store, with_status, cancel_open,
  cancel_by_status, cancel_found, cancel, complete,
}
use joinanny.Orders.Store.Backed.{RowIs, Remembers, complete_row, complete-Remembers}

cancel_executing :
    (user : ℕ) (id : String) (now : ℕ) (r : ConfirmationRecord) (items : Store)
    → RowIs user id ConfirmationStatus.executing r items
    → ltb now r.confirmation.expires_at ≡ true
    → cancel user id now items
      ≡ (none, insert id (with_status r ConfirmationStatus.cancelled) items)
unfolding cancel cancel_found cancel_by_status cancel_open
cancel_executing user id now r items (h, e, mine) still = rw (h, mine, e, still) refl

-- A cancel may lose: when the user's confirmation is being executed and has not expired, `Cancel`
-- reports success, and the `Complete` of the running execution still succeeds after it and leaves
-- the confirmation executed with its result.
pub complete-cancel :
    (user : ℕ) (id : String) (now : ℕ) (r : ConfirmationRecord) (items : Store)
    (result : ExecutionResult)
    → RowIs user id ConfirmationStatus.executing r items
    → ltb now r.confirmation.expires_at ≡ true
    → ((cancel user id now items).0 ≡ none)
      × ((complete id result (cancel user id now items).1).0 ≡ none)
      × Remembers user id result (complete id result (cancel user id now items).1).1
complete-cancel user id now r items result row still =
    let c = with_status r ConfirmationStatus.cancelled in
    let row' : RowIs user id ConfirmationStatus.cancelled c (insert id c items) =
      (lookup-insert_self id c items, refl, row.2) in
    rw (cancel_executing user id now r items row still) (
      rw (complete_row user id ConfirmationStatus.cancelled c (insert id c items) row' result) (
        refl,
        refl,
        complete-Remembers user id ConfirmationStatus.cancelled c (insert id c items) row' result,
      ))
