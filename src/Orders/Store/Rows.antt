-- ===== src/Orders/Store/Rows.antt =====
-- A confirmation that can never be handed out again, in the in-memory store of
-- internal/orders/service.go.
use text.Mathlib.Text.{◌==◌ as str_eq}
use text.Mathlib.TextEquality.{eq_iff}
use joinanny.Base.{
  ℕ, ◌≤◌, ◌≡◌, sym, ◌∙◌, subst, inl, inr, String, false, not, ◌&&◌, Option, none, some, arith, ltb,
  ◌==◌, Bool-cases,
}
use joinanny.Base.Table.{lookup, insert, lookup-insert_self, lookup-insert_ne}
use joinanny.Orders.Store.{
  ConfirmationStatus, Confirmation, ExecutionResult, ConfirmationRecord, Store, put, with_status,
  no_result, key_taken, take_open, cancel_open, take_by_status, take_found, take_for_execution,
  complete_found, complete, fail_found, fail, cancel_by_status, cancel_found, cancel,
}

-- A row at time t that is not pending: it has left the state for good, or it expired by then.
abbrev pub SpentStatus : ConfirmationStatus → ℕ → ℕ → Type 0
SpentStatus ConfirmationStatus.pending expires t = ⊥
SpentStatus ConfirmationStatus.expired expires t = expires ≤ t
SpentStatus _ expires t = Unit {0}

abbrev pub SpentRow : ℕ → ConfirmationRecord → Type 0
SpentRow t r = SpentStatus r.confirmation.status r.confirmation.expires_at t

abbrev pub Spent : String → ℕ → Store → Type 0
Spent id t items = (r : ConfirmationRecord) × (lookup id items ≡ some r) × SpentRow t r

SpentStatus-later :
    (s : ConfirmationStatus) (expires t now : ℕ)
    → t ≤ now
    → SpentStatus s expires t
    → SpentStatus s expires now
SpentStatus-later ConfirmationStatus.pending e t now h p = absurd p
SpentStatus-later ConfirmationStatus.expired e t now h p = omega arith
SpentStatus-later ConfirmationStatus.executing e t now h p = tt
SpentStatus-later ConfirmationStatus.executed e t now h p = tt
SpentStatus-later ConfirmationStatus.cancelled e t now h p = tt
SpentStatus-later ConfirmationStatus.failed e t now h p = tt

pub Spent-later :
    (id : String) (t now : ℕ) (items : Store) → t ≤ now → Spent id t items → Spent id now items
Spent-later id t now items h (r, e, p) =
    (r, e, SpentStatus-later r.confirmation.status r.confirmation.expires_at t now h p)

-- Writing a spent row keeps every spent row spent, its own included.
insert-Spent :
    (id j : String) (now : ℕ) (r' : ConfirmationRecord) (items : Store)
    → SpentRow now r'
    → Spent id now items
    → Spent id now (insert j r' items)
insert-Spent id j now r' items p (r, e, q) = elim (Bool-cases (str_eq j id)) [
  | inl same ↦ (
    r',
    subst (λ k. lookup id (insert k r' items) ≡ some r') (sym ((eq_iff j id).0 same))
        (lookup-insert_self id r' items),
    p,
  )
  | inr differ ↦ (r, lookup-insert_ne j id r' items differ ∙ e, q)
]

pub insert-Spent_self :
    (id : String) (now : ℕ) (r' : ConfirmationRecord) (items : Store)
    → SpentRow now r'
    → Spent id now (insert id r' items)
insert-Spent_self id now r' items p = (r', lookup-insert_self id r' items, p)

expire-Spent :
    (id j : String) (now : ℕ) (r : ConfirmationRecord) (items : Store)
    → ltb now r.confirmation.expires_at ≡ false
    → Spent id now items
    → Spent id now (insert j (with_status r ConfirmationStatus.expired) items)
expire-Spent id j now r items h s =
    insert-Spent id j now (with_status r ConfirmationStatus.expired) items (ground arith) s

module _ (id j : String) (now : ℕ) (items : Store) (s : Spent id now items) where
  take_open-Spent : (r : ConfirmationRecord) → Spent id now (take_open j r now items).1
  unfolding take_open
  take_open-Spent r = elim (Bool-cases (ltb now r.confirmation.expires_at)) [
    | inl live ↦
        rw live (insert-Spent id j now (with_status r ConfirmationStatus.executing) items tt s)
    | inr late ↦ rw late (expire-Spent id j now r items late s)
  ]

  take_by_status-Spent :
      (st : ConfirmationStatus) (r : ConfirmationRecord)
      → Spent id now (take_by_status st j r now items).1
  unfolding take_by_status
  take_by_status-Spent ConfirmationStatus.pending r = take_open-Spent r
  take_by_status-Spent ConfirmationStatus.expired r = take_open-Spent r
  take_by_status-Spent ConfirmationStatus.executing r = s
  take_by_status-Spent ConfirmationStatus.executed r = s
  take_by_status-Spent ConfirmationStatus.cancelled r = s
  take_by_status-Spent ConfirmationStatus.failed r = s

  take_found-Spent :
      (user : ℕ) (o : Option ConfirmationRecord) → Spent id now (take_found j user now o items).1
  unfolding take_found
  take_found-Spent user none = s
  take_found-Spent user (some r) = elim (Bool-cases (r.confirmation.user_id == user)) [
    | inl own ↦ rw own (take_by_status-Spent r.confirmation.status r)
    | inr foreign ↦ rw foreign s
  ]

  pub take_for_execution-Spent : (user : ℕ) → Spent id now (take_for_execution user j now items).1
  unfolding take_for_execution
  take_for_execution-Spent user = take_found-Spent user (lookup j items)

  complete_found-Spent :
      (result : ExecutionResult) (o : Option ConfirmationRecord)
      → Spent id now (complete_found j result o items).1
  unfolding complete_found
  complete_found-Spent result none = s
  complete_found-Spent result (some r) =
      insert-Spent id j now (record (with_status r ConfirmationStatus.executed) { result = result })
        items tt s

  pub complete-Spent : (result : ExecutionResult) → Spent id now (complete j result items).1
  unfolding complete
  complete-Spent result = complete_found-Spent result (lookup j items)

  fail_found-Spent : (o : Option ConfirmationRecord) → Spent id now (fail_found j o items).1
  unfolding fail_found
  fail_found-Spent none = s
  fail_found-Spent (some r) =
      insert-Spent id j now (with_status r ConfirmationStatus.failed) items tt s

  pub fail-Spent : Spent id now (fail j items).1
  unfolding fail
  fail-Spent = fail_found-Spent (lookup j items)

  cancel_open-Spent : (r : ConfirmationRecord) → Spent id now (cancel_open j r now items).1
  unfolding cancel_open
  cancel_open-Spent r = elim (Bool-cases (ltb now r.confirmation.expires_at)) [
    | inl live ↦
        rw live (insert-Spent id j now (with_status r ConfirmationStatus.cancelled) items tt s)
    | inr late ↦ rw late (expire-Spent id j now r items late s)
  ]

  cancel_by_status-Spent :
      (st : ConfirmationStatus) (r : ConfirmationRecord)
      → Spent id now (cancel_by_status st j r now items).1
  unfolding cancel_by_status
  cancel_by_status-Spent ConfirmationStatus.cancelled r = s
  cancel_by_status-Spent ConfirmationStatus.executed r = s
  cancel_by_status-Spent ConfirmationStatus.pending r = cancel_open-Spent r
  cancel_by_status-Spent ConfirmationStatus.expired r = cancel_open-Spent r
  cancel_by_status-Spent ConfirmationStatus.executing r = cancel_open-Spent r
  cancel_by_status-Spent ConfirmationStatus.failed r = cancel_open-Spent r

  cancel_found-Spent :
      (user : ℕ) (o : Option ConfirmationRecord) → Spent id now (cancel_found j user now o items).1
  unfolding cancel_found
  cancel_found-Spent user none = s
  cancel_found-Spent user (some r) = elim (Bool-cases (r.confirmation.user_id == user)) [
    | inl own ↦ rw own (cancel_by_status-Spent r.confirmation.status r)
    | inr foreign ↦ rw foreign s
  ]

  pub cancel-Spent : (user : ℕ) → Spent id now (cancel user j now items).1
  unfolding cancel
  cancel-Spent user = cancel_found-Spent user (lookup j items)

  -- A new confirmation under another id changes no spent row.
  pub put-Spent : (c : Confirmation) → str_eq c.id id ≡ false → Spent id now (put c items).1
  unfolding put
  put-Spent c other =
      let (r, e, q) = s in
      elim (Bool-cases (not (str_eq c.idempotency_key "") && key_taken c.idempotency_key items)) [
        | inl clash ↦ rw clash s
        | inr free ↦ rw free (
          r,
          lookup-insert_ne c.id id (record { confirmation = c; result = no_result }) items other
              ∙ e,
          q,
        )
      ]
