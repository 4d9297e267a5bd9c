-- ===== src/Orders/Store/Answers.antt =====
-- When `TakeForExecution` of internal/orders/service.go hands a confirmation out, and what that spends.
use joinanny.Base.{
  ℕ, ◌≡◌, refl, inl, inr, String, Bool, true, false, Option, none, some, arith, ltb, ◌==◌,
  Bool-cases,
}
use joinanny.Base.Table.{lookup}
use joinanny.Orders.Store.{
  ConfirmationStatus, ConfirmationRecord, Store, Taken, taken, with_status, take_open,
  take_by_status, take_found, take_for_execution,
}
use joinanny.Orders.Store.Rows.{SpentStatus, Spent, insert-Spent_self}

-- Whether the caller got the confirmation for execution.
abbrev pub handed : Taken → Bool
handed (taken _) = true
handed _ = false

abbrev pub is_open : ConfirmationStatus → Bool
is_open ConfirmationStatus.pending = true
is_open ConfirmationStatus.expired = true
is_open _ = false

-- A spent row is not handed out.
take_by_status_refuses :
    (st : ConfirmationStatus) (id : String) (r : ConfirmationRecord) (now : ℕ) (items : Store)
    → SpentStatus st r.confirmation.expires_at now
    → handed (take_by_status st id r now items).0 ≡ false
unfolding take_by_status take_open
take_by_status_refuses ConfirmationStatus.pending id r now items p = absurd p
take_by_status_refuses ConfirmationStatus.expired id r now items p = ground arith
take_by_status_refuses ConfirmationStatus.executing id r now items p = refl
take_by_status_refuses ConfirmationStatus.executed id r now items p = refl
take_by_status_refuses ConfirmationStatus.cancelled id r now items p = refl
take_by_status_refuses ConfirmationStatus.failed id r now items p = refl

pub take_refuses :
    (user : ℕ) (id : String) (now : ℕ) (items : Store)
    → Spent id now items
    → handed (take_for_execution user id now items).0 ≡ false
unfolding take_for_execution take_found
take_refuses user id now items (r, e, p) =
    rw (e, take_found)
      (elim (Bool-cases (r.confirmation.user_id == user)) [
        | inl own ↦ rw own (take_by_status_refuses r.confirmation.status id r now items p)
        | inr foreign ↦ rw foreign
      ])

-- What is handed out is spent from then on.
take_open_spends :
    (id : String) (r : ConfirmationRecord) (now : ℕ) (items : Store)
    → handed (take_open id r now items).0 ≡ true
    → Spent id now (take_open id r now items).1
unfolding take_open
take_open_spends id r now items h = elim (Bool-cases (ltb now r.confirmation.expires_at)) [
  | inl live ↦
      rw live (insert-Spent_self id now (with_status r ConfirmationStatus.executing) items tt)
  | inr late ↦ let refusal : false ≡ true = rw late at h in cc
]

take_by_status_spends :
    (st : ConfirmationStatus) (id : String) (r : ConfirmationRecord) (now : ℕ) (items : Store)
    → handed (take_by_status st id r now items).0 ≡ true
    → Spent id now (take_by_status st id r now items).1
unfolding take_by_status
take_by_status_spends ConfirmationStatus.pending id r now items h =
    take_open_spends id r now items h
take_by_status_spends ConfirmationStatus.expired id r now items h =
    take_open_spends id r now items h
take_by_status_spends ConfirmationStatus.executing id r now items h = cc
take_by_status_spends ConfirmationStatus.executed id r now items h = cc
take_by_status_spends ConfirmationStatus.cancelled id r now items h = cc
take_by_status_spends ConfirmationStatus.failed id r now items h = cc

take_found_spends :
    (id : String) (user now : ℕ) (o : Option ConfirmationRecord) (items : Store)
    → handed (take_found id user now o items).0 ≡ true
    → Spent id now (take_found id user now o items).1
unfolding take_found
take_found_spends id user now none items h = cc
take_found_spends id user now (some r) items h =
    elim (Bool-cases (r.confirmation.user_id == user)) [
      | inl own ↦ rw own (take_by_status_spends r.confirmation.status id r now items (rw own at h))
      | inr foreign ↦ let refusal : false ≡ true = rw foreign at h in cc
    ]

pub take_spends :
    (user : ℕ) (id : String) (now : ℕ) (items : Store)
    → handed (take_for_execution user id now items).0 ≡ true
    → Spent id now (take_for_execution user id now items).1
unfolding take_for_execution
take_spends user id now items h = take_found_spends id user now (lookup id items) items h
