-- ===== src/Orders/Store/Backed.antt =====
-- The row behind each answer of `TakeForExecution` in internal/orders/service.go.
use joinanny.Base.{
  ℕ, ◌≡◌, refl, ◌∙◌, ap, inl, inr, String, true, Option, none, some, ltb, ◌==◌, Bool-cases,
}
use joinanny.Base.Table.{lookup, insert, lookup-insert_self}
use joinanny.Orders.Store.{
  ConfirmationStatus, ConfirmationRecord, ExecutionResult, Store, Taken, refused, done, taken,
  StoreError, take_open, take_by_status, take_found, take_for_execution, with_status,
  complete_found, complete, fail_found, fail,
}

-- The user's row of the id, in a status.
abbrev pub RowIs : ℕ → String → ConfirmationStatus → ConfirmationRecord → Store → Type 0
RowIs user id status r items =
    (lookup id items ≡ some r)
    × (r.confirmation.status ≡ status)
    × ((r.confirmation.user_id == user) ≡ true)

-- The store holds the user's row of the id, executed with the result.
abbrev pub Remembers : ℕ → String → ExecutionResult → Store → Type 0
Remembers user id result items =
    (r : ConfirmationRecord) × RowIs user id ConfirmationStatus.executed r items
    × (r.result ≡ result)

-- What an answer says about the row that it leaves.
abbrev pub Backed : ℕ → String → Taken × Store → Type 0
Backed user id (refused e, items) = Unit {0}
Backed user id (done c result, items) = Remembers user id result items
Backed user id (taken c, items) =
    (r : ConfirmationRecord) × RowIs user id ConfirmationStatus.executing r items
    × (r.confirmation ≡ c)

module _ (user : ℕ) (id : String) (r : ConfirmationRecord) (now : ℕ) (items : Store)
    (mine : (r.confirmation.user_id == user) ≡ true) where
  take_open-Backed : Backed user id (take_open id r now items)
  unfolding take_open
  take_open-Backed = elim (Bool-cases (ltb now r.confirmation.expires_at)) [
    | inl e ↦ rw e (
      with_status r ConfirmationStatus.executing,
      (lookup-insert_self id (with_status r ConfirmationStatus.executing) items, refl, mine),
      refl,
    )
    | inr e ↦ rw e tt
  ]

  take_by_status-Backed :
      (s : ConfirmationStatus)
      → r.confirmation.status ≡ s
      → lookup id items ≡ some r
      → Backed user id (take_by_status s id r now items)
  unfolding take_by_status
  take_by_status-Backed ConfirmationStatus.executed e h = (r, (h, e, mine), refl)
  take_by_status-Backed ConfirmationStatus.cancelled e h = tt
  take_by_status-Backed ConfirmationStatus.failed e h = tt
  take_by_status-Backed ConfirmationStatus.executing e h = tt
  take_by_status-Backed ConfirmationStatus.pending e h = take_open-Backed
  take_by_status-Backed ConfirmationStatus.expired e h = take_open-Backed

take_found-Backed :
    (user : ℕ) (id : String) (now : ℕ) (o : Option ConfirmationRecord) (items : Store)
    → lookup id items ≡ o
    → Backed user id (take_found id user now o items)
unfolding take_found
take_found-Backed user id now none items h = tt
take_found-Backed user id now (some r) items h =
    elim (Bool-cases (r.confirmation.user_id == user)) [
      | inl e ↦ rw e (take_by_status-Backed user id r now items e r.confirmation.status refl h)
      | inr e ↦ rw e tt
    ]

pub take_for_execution-Backed :
    (user : ℕ) (id : String) (now : ℕ) (items : Store)
    → Backed user id (take_for_execution user id now items)
unfolding take_for_execution
take_for_execution-Backed user id now items =
    take_found-Backed user id now (lookup id items) items refl

-- A take of the user's row answers by the row's status.
pub take_of_row :
    (user : ℕ) (id : String) (status : ConfirmationStatus) (r : ConfirmationRecord) (now : ℕ)
    (items : Store)
    → RowIs user id status r items
    → take_for_execution user id now items ≡ take_by_status status id r now items
unfolding take_for_execution take_found
take_of_row user id status r now items (h, e, mine) = rw (h, mine, e) refl

pub take_remembered :
    (user : ℕ) (id : String) (now : ℕ) (items : Store) (result : ExecutionResult)
    → (m : Remembers user id result items)
    → take_for_execution user id now items ≡ (done m.0.confirmation result, items)
unfolding take_by_status
take_remembered user id now items result (r, row, e) =
    take_of_row user id ConfirmationStatus.executed r now items row
    ∙ ap (λ x. (done r.confirmation x, items)) e

pub take_failed :
    (user : ℕ) (id : String) (now : ℕ) (items : Store) (r : ConfirmationRecord)
    → RowIs user id ConfirmationStatus.failed r items
    → take_for_execution user id now items ≡ (refused StoreError.failed, items)
unfolding take_by_status
take_failed user id now items r row = take_of_row user id ConfirmationStatus.failed r now items row

-- `Complete` of the user's row.
pub completed_row : ConfirmationRecord → ExecutionResult → ConfirmationRecord
completed_row r result = record (with_status r ConfirmationStatus.executed) { result = result }

module _ (user : ℕ) (id : String) (status : ConfirmationStatus) (r : ConfirmationRecord)
    (items : Store) (row : RowIs user id status r items) where
  pub complete_row :
      (result : ExecutionResult)
      → complete id result items ≡ (none, insert id (completed_row r result) items)
  unfolding complete complete_found completed_row
  complete_row result = rw row.0 refl

  pub complete-Remembers :
      (result : ExecutionResult)
      → Remembers user id result (insert id (completed_row r result) items)
  unfolding completed_row
  complete-Remembers result = (
    completed_row r result,
    (lookup-insert_self id (completed_row r result) items, refl, row.2),
    refl,
  )

  pub fail_row :
      (f : ConfirmationRecord) × RowIs user id ConfirmationStatus.failed f (fail id items).1
  unfolding fail fail_found
  fail_row = (
    with_status r ConfirmationStatus.failed,
    (rw row.0 (lookup-insert_self id (with_status r ConfirmationStatus.failed) items), refl, row.2),
  )
