-- ===== src/Orders/Service/Prepare/Lifetime.antt =====
-- A confirmation that internal/orders/service.go has just prepared can be executed by its user until
-- it expires.
use joinanny.Base.{
  ℕ, ◌+◌, ◌≡◌, refl, ap, ◌∙◌, subst, inl, inr, String, true, not, ◌&&◌, Option, none, some, arith,
  ltb, ◌==◌, Bool-cases,
}
use joinanny.Base.Table.{insert, lookup-insert_self}
use text.Mathlib.Text.{◌==◌ as str_eq}
use joinanny.Domain.{Intent, is_exchange_changing}
use joinanny.Orders.Store.{
  Confirmation, ConfirmationStatus, ConfirmationRecord, Store, key_taken, put, no_result, taken,
  take_open, take_by_status, take_for_execution,
}
use joinanny.Orders.Store.Backed.{RowIs, take_of_row}
use joinanny.Orders.Service.Prepare.{
  Prepared, Answers, new_confirmation, audited_as, put_prepared, store_prepared, prepare_with,
  prepare,
}

abbrev stored_row : Confirmation → ConfirmationRecord
stored_row c = record { confirmation = c; result = no_result }

-- What an outcome says: the confirmation is stored, pending, the user's, and lives for the ttl.
abbrev Lives : ℕ → ℕ → ℕ → Prepared × Store → Type 0
Lives user now ttl (Prepared.prepared c, items) =
    RowIs user c.id ConfirmationStatus.pending (stored_row c) items × (c.expires_at ≡ now + ttl)
Lives user now ttl (Prepared.not_exchange_changing, items) = Unit {0}
Lives user now ttl (Prepared.failed_with e, items) = Unit {0}
Lives user now ttl (Prepared.not_stored e, items) = Unit {0}

same_user : (user : ℕ) → (user == user) ≡ true
same_user user = ground arith

module _ (user now ttl : ℕ) (c : Confirmation) (mine : (c.user_id == user) ≡ true)
    (pending : c.status ≡ ConfirmationStatus.pending) (until : c.expires_at ≡ now + ttl) where
  audited_as-Lives :
      (audit_error : Option String) (items : Store)
      → Lives user now ttl (audited_as c audit_error, insert c.id (stored_row c) items)
  unfolding audited_as
  audited_as-Lives none items =
      ((lookup-insert_self c.id (stored_row c) items, pending, mine), until)
  audited_as-Lives (some e) items = tt

  put_prepared-Lives :
      (audit_error : Option String) (items : Store)
      → Lives user now ttl (put_prepared c audit_error (put c items))
  unfolding put_prepared put
  put_prepared-Lives audit_error items =
      elim (Bool-cases (not (str_eq c.idempotency_key "") && key_taken c.idempotency_key items)) [
        | inl e ↦ rw e tt
        | inr e ↦ rw e (audited_as-Lives audit_error items)
      ]

  store_prepared-Lives :
      (intent_error audit_error : Option String) (items : Store)
      → Lives user now ttl (store_prepared c intent_error audit_error items)
  unfolding store_prepared
  store_prepared-Lives (some e) audit_error items = tt
  store_prepared-Lives none audit_error items = put_prepared-Lives audit_error items

prepare_with-Lives :
    (ttl user : ℕ) (intent : Intent) (key : String) (a : Answers) (now : ℕ)
    (id correlation hash : Option String) (items : Store)
    → Lives user now ttl (prepare_with ttl user intent key a now id correlation hash items)
unfolding prepare_with new_confirmation
prepare_with-Lives ttl user intent key a now (some id) (some correlation) (some hash) items =
    store_prepared-Lives user now ttl (new_confirmation ttl user intent key id correlation hash now)
      (same_user user) refl refl a.intent_error a.audit_error items
prepare_with-Lives ttl user intent key a now none correlation hash items = tt
prepare_with-Lives ttl user intent key a now (some id) none hash items = tt
prepare_with-Lives ttl user intent key a now (some id) (some correlation) none items = tt

prepare-Lives :
    (ttl user : ℕ) (intent : Intent) (key : String) (a : Answers) (now : ℕ) (items : Store)
    → Lives user now ttl (prepare ttl user intent key a now items)
unfolding prepare
prepare-Lives ttl user intent key a now items = elim (Bool-cases (is_exchange_changing intent)) [
  | inl e ↦
      rw e (prepare_with-Lives ttl user intent key a now a.id a.correlation_id a.intent_hash items)
  | inr e ↦ rw e tt
]

take_stored :
    (user now ttl later : ℕ) (c : Confirmation) (items : Store)
    → RowIs user c.id ConfirmationStatus.pending (stored_row c) items
    → ltb later c.expires_at ≡ true
    → (take_for_execution user c.id later items).0
      ≡ taken (record c { status = ConfirmationStatus.executing })
unfolding take_by_status take_open
take_stored user now ttl later c items row still =
    ap (λ p. p.0) (take_of_row user c.id ConfirmationStatus.pending (stored_row c) later items row)
    ∙ rw still refl

take_living :
    (user now ttl later : ℕ) (c : Confirmation) (p : Prepared × Store)
    → p.0 ≡ Prepared.prepared c
    → Lives user now ttl p
    → ltb later (now + ttl) ≡ true
    → (take_for_execution user c.id later p.1).0
      ≡ taken (record c { status = ConfirmationStatus.executing })
take_living user now ttl later c (Prepared.prepared d, items) e (row, until) still =
    let same : d ≡ c = cc in
    subst
      (λ q.
        (take_for_execution user q.id later items).0
        ≡ taken (record q { status = ConfirmationStatus.executing }))
      same (take_stored user now ttl later d items row (rw until still))
take_living user now ttl later c (Prepared.not_exchange_changing, items) e l still = cc
take_living user now ttl later c (Prepared.failed_with x, items) e l still = cc
take_living user now ttl later c (Prepared.not_stored x, items) e l still = cc

-- Prepared, then executable: when `prepare` returns a confirmation, its user's first take of it at
-- any time before the end of its life, counted from the time of `prepare`, hands it out for
-- execution, whatever else the store holds.
pub take-prepare :
    (ttl user : ℕ) (intent : Intent) (key : String) (a : Answers) (now later : ℕ) (items : Store)
    (c : Confirmation)
    → (prepare ttl user intent key a now items).0 ≡ Prepared.prepared c
    → ltb later (now + ttl) ≡ true
    → (take_for_execution user c.id later (prepare ttl user intent key a now items).1).0
      ≡ taken (record c { status = ConfirmationStatus.executing })
take-prepare ttl user intent key a now later items c h still =
    take_living user now ttl later c (prepare ttl user intent key a now items) h
      (prepare-Lives ttl user intent key a now items) still
