-- ===== src/Orders/Store/Views.antt =====
-- `MemoryStore` of internal/orders/service.go seen from outside: what the callers can tell apart of a
-- confirmation, without the order of the map, the results and the texts.
use text.Mathlib.Text.{◌==◌ as str_eq}
use text.Mathlib.TextEquality.{eq_iff}
use joinanny.Base.{
  ℕ, ◌≡◌, refl, sym, ap, ◌∙◌, ◌⊎◌, ◌≢◌, inl, inr, String, Bool, true, false, [], ◌∷◌, Option, none,
  some, ltb, ◌==◌, if◌then◌else◌, Bool-cases,
}
use joinanny.Base.Table.{lookup, insert, lookup-insert}
use joinanny.Orders.Store.{
  ConfirmationStatus, Confirmation, ExecutionResult, ConfirmationRecord, Store, key_taken,
  with_status, put, take_open, take_by_status, take_found, take_for_execution, complete_found,
  complete, fail_found, fail, cancel_open, cancel_by_status, cancel_found, cancel,
}
use joinanny.Orders.Store.Once.{
  Call, put_call, take_call, complete_call, fail_call, cancel_call, after,
}

pub record View : Type 0 where
  pub user_id : ℕ
  pub status : ConfirmationStatus
  pub expires_at : ℕ

abbrev pub view_of : ConfirmationRecord → View
view_of r = record {
  user_id = r.confirmation.user_id;
  status = r.confirmation.status;
  expires_at = r.confirmation.expires_at;
}

abbrev pub seen : Option ConfirmationRecord → Option View
seen none = none
seen (some r) = some (view_of r)

-- The abstract store: what is seen under an id.
abbrev pub view : Store → String → Option View
view items id = seen (lookup id items)

-- A step that waits for the user: to the status if it is in time, and else to expired.
abbrev pub in_time : ConfirmationStatus → ℕ → View → View
in_time status now v = record v {
  status = if ltb now v.expires_at then status else ConfirmationStatus.expired;
}

abbrev pub take_view : ConfirmationStatus → ℕ → View → View
take_view ConfirmationStatus.executed now v = v
take_view ConfirmationStatus.cancelled now v = v
take_view ConfirmationStatus.failed now v = v
take_view ConfirmationStatus.executing now v = v
take_view _ now v = in_time ConfirmationStatus.executing now v

abbrev pub cancel_view : ConfirmationStatus → ℕ → View → View
cancel_view ConfirmationStatus.cancelled now v = v
cancel_view ConfirmationStatus.executed now v = v
cancel_view _ now v = in_time ConfirmationStatus.cancelled now v

abbrev pub if_owner : ℕ → (View → View) → View → View
if_owner user f v = if v.user_id == user then f v else v

abbrev pub map_view : (View → View) → Option View → Option View
map_view f none = none
map_view f (some v) = some (f v)

abbrev pub write : String → Option View → (String → Option View) → String → Option View
write id v views j = if str_eq id j then v else views j

-- The abstract store after a call; a key that is taken already refuses a new confirmation.
abbrev pub step : ℕ → Call → Bool → (String → Option View) → String → Option View
step now (put_call c) refused views =
    if refused
    then views
    else write c.id
        (some (record { user_id = c.user_id; status = c.status; expires_at = c.expires_at })) views
step now (take_call user id) refused views =
    write id (map_view (if_owner user (λ v. take_view v.status now v)) (views id)) views
step now (complete_call id result) refused views =
    write id (map_view (λ v. record v { status = ConfirmationStatus.executed }) (views id)) views
step now (fail_call id) refused views =
    write id (map_view (λ v. record v { status = ConfirmationStatus.failed }) (views id)) views
step now (cancel_call user id) refused views =
    write id (map_view (if_owner user (λ v. cancel_view v.status now v)) (views id)) views

-- A confirmation of the store has the key.
abbrev pub HasKey : String → Store → Type 0
HasKey key [] = ⊥
HasKey key ((_, r) ∷ items) = (r.confirmation.idempotency_key ≡ key) ⊎ HasKey key items

-- When a new confirmation is refused: it has a key, and the key is in the store.
abbrev pub Refuses : Bool → Call → Store → Type 0
Refuses true (put_call c) items = (c.idempotency_key ≢ "") × HasKey c.idempotency_key items
Refuses false (put_call c) items = (c.idempotency_key ≡ "") ⊎ ¬ HasKey c.idempotency_key items
Refuses refused _ items = refused ≡ false

-- What is seen under an id after a call is what the abstract step makes of what was seen before.
abbrev pub Follows : ℕ → Call → Store → String → Type 0
Follows now c items j =
    (refused : Bool) × Refuses refused c items
    × (view (after now c items) j ≡ step now c refused (view items) j)

key_taken-HasKey : (key : String) (items : Store) → key_taken key items ≡ true → HasKey key items
unfolding key_taken
key_taken-HasKey key [] h = absurd (let k : false ≡ true = h in cc)
key_taken-HasKey key ((id, r) ∷ items) h =
    elim (Bool-cases (str_eq r.confirmation.idempotency_key key)) [
      | inl same ↦ inl ((eq_iff r.confirmation.idempotency_key key).0 same)
      | inr apart ↦
          let k : key_taken key items ≡ true = rw apart at h in inr (key_taken-HasKey key items k)
    ]

key_free-HasKey : (key : String) (items : Store) → key_taken key items ≡ false → ¬ HasKey key items
unfolding key_taken
key_free-HasKey key [] h k = k
key_free-HasKey key ((id, r) ∷ items) h k =
    elim (Bool-cases (str_eq r.confirmation.idempotency_key key)) [
      | inl same ↦ let q : true ≡ false = rw same at h in cc
      | inr apart ↦
          let free : key_taken key items ≡ false = rw apart at h in
          elim k [
            | inl e ↦
                let q = (eq_iff r.confirmation.idempotency_key key).1 e in
                let clash : true ≡ false = sym q ∙ apart in cc
            | inr more ↦ key_free-HasKey key items free more
          ]
    ]

-- A row that is written is seen under its id, and nothing else changes.
view-insert :
    (id j : String) (r : ConfirmationRecord) (items : Store)
    → view (insert id r items) j ≡ write id (some (view_of r)) (view items) j
view-insert id j r items = elim (Bool-cases (str_eq id j)) [
  | inl same ↦ rw (lookup-insert id j r items, same) refl
  | inr apart ↦ rw (lookup-insert id j r items, apart) refl
]

-- A call that leaves the store as it is writes what is seen already.
view_kept : (id j : String) (items : Store) → view items j ≡ write id (view items id) (view items) j
view_kept id j items = elim (Bool-cases (str_eq id j)) [
  | inl same ↦ rw same (ap (view items) (sym ((eq_iff id j).0 same)))
  | inr apart ↦ rw apart refl
]

module _ (id j : String) (now : ℕ) (items : Store) where
  abbrev Written : Option View → Store → Type 0
  Written v after = view after j ≡ write id v (view items) j

  kept : (v : Option View) → view items id ≡ v → Written v items
  kept v e = view_kept id j items ∙ ap (λ u. write id u (view items) j) e

  module _ (r : ConfirmationRecord) (here : view items id ≡ some (view_of r)) where
    take_open-Written :
        Written
          (some (in_time ConfirmationStatus.executing now (view_of r)))
          (take_open id r now items).1
    unfolding take_open
    take_open-Written = elim (Bool-cases (ltb now r.confirmation.expires_at)) [
      | inl e ↦
          rw (e, take_open) (view-insert id j (with_status r ConfirmationStatus.executing) items)
      | inr e ↦
          rw (e, take_open) (view-insert id j (with_status r ConfirmationStatus.expired) items)
    ]

    cancel_open-Written :
        Written
          (some (in_time ConfirmationStatus.cancelled now (view_of r)))
          (cancel_open id r now items).1
    unfolding cancel_open
    cancel_open-Written = elim (Bool-cases (ltb now r.confirmation.expires_at)) [
      | inl e ↦
          rw (e, cancel_open) (view-insert id j (with_status r ConfirmationStatus.cancelled) items)
      | inr e ↦
          rw (e, cancel_open) (view-insert id j (with_status r ConfirmationStatus.expired) items)
    ]

    take_by_status-Written :
        (status : ConfirmationStatus)
        → Written (some (take_view status now (view_of r))) (take_by_status status id r now items).1
    unfolding take_by_status
    take_by_status-Written ConfirmationStatus.executed = kept _ here
    take_by_status-Written ConfirmationStatus.cancelled = kept _ here
    take_by_status-Written ConfirmationStatus.failed = kept _ here
    take_by_status-Written ConfirmationStatus.executing = kept _ here
    take_by_status-Written ConfirmationStatus.pending = take_open-Written
    take_by_status-Written ConfirmationStatus.expired = take_open-Written

    cancel_by_status-Written :
        (status : ConfirmationStatus)
        → Written
            (some (cancel_view status now (view_of r)))
            (cancel_by_status status id r now items).1
    unfolding cancel_by_status
    cancel_by_status-Written ConfirmationStatus.cancelled = kept _ here
    cancel_by_status-Written ConfirmationStatus.executed = kept _ here
    cancel_by_status-Written ConfirmationStatus.failed = cancel_open-Written
    cancel_by_status-Written ConfirmationStatus.executing = cancel_open-Written
    cancel_by_status-Written ConfirmationStatus.pending = cancel_open-Written
    cancel_by_status-Written ConfirmationStatus.expired = cancel_open-Written

  take_found-Written :
      (user : ℕ) (o : Option ConfirmationRecord)
      → view items id ≡ seen o
      → Written
          (map_view (if_owner user (λ v. take_view v.status now v)) (seen o))
          (take_found id user now o items).1
  unfolding take_found
  take_found-Written user none e = kept _ e
  take_found-Written user (some r) e = elim (Bool-cases (r.confirmation.user_id == user)) [
    | inl own ↦ rw (own, take_found) (take_by_status-Written r e r.confirmation.status)
    | inr foreign ↦ rw (foreign, take_found) (kept _ e)
  ]

  cancel_found-Written :
      (user : ℕ) (o : Option ConfirmationRecord)
      → view items id ≡ seen o
      → Written
          (map_view (if_owner user (λ v. cancel_view v.status now v)) (seen o))
          (cancel_found id user now o items).1
  unfolding cancel_found
  cancel_found-Written user none e = kept _ e
  cancel_found-Written user (some r) e = elim (Bool-cases (r.confirmation.user_id == user)) [
    | inl own ↦ rw (own, cancel_found) (cancel_by_status-Written r e r.confirmation.status)
    | inr foreign ↦ rw (foreign, cancel_found) (kept _ e)
  ]

  complete_found-Written :
      (result : ExecutionResult) (o : Option ConfirmationRecord)
      → view items id ≡ seen o
      → Written
          (map_view (λ v. record v { status = ConfirmationStatus.executed }) (seen o))
          (complete_found id result o items).1
  unfolding complete_found
  complete_found-Written result none e = kept _ e
  complete_found-Written result (some r) e = view-insert id j _ items

  fail_found-Written :
      (o : Option ConfirmationRecord)
      → view items id ≡ seen o
      → Written
          (map_view (λ v. record v { status = ConfirmationStatus.failed }) (seen o))
          (fail_found id o items).1
  unfolding fail_found
  fail_found-Written none e = kept _ e
  fail_found-Written (some r) e = view-insert id j _ items

put-Follows :
    (c : Confirmation) (now : ℕ) (items : Store) (j : String)
    → (refused : Bool) × Refuses refused (put_call c) items
      × (view (put c items).1 j ≡ step now (put_call c) refused (view items) j)
unfolding put
put-Follows c now items j = elim (Bool-cases (str_eq c.idempotency_key "")) [
  | inl none_given ↦ (
    false,
    inl ((eq_iff c.idempotency_key "").0 none_given),
    rw (none_given, put) (view-insert c.id j _ items),
  )
  | inr given ↦ elim (Bool-cases (key_taken c.idempotency_key items)) [
    | inl held ↦ (
      true,
      (
        λ e. let q : true ≡ false = sym ((eq_iff c.idempotency_key "").1 e) ∙ given in cc,
        key_taken-HasKey c.idempotency_key items held,
      ),
      rw (given, put, held) refl,
    )
    | inr free ↦ (
      false,
      inr (key_free-HasKey c.idempotency_key items free),
      rw (given, put, free) (view-insert c.id j _ items),
    )
  ]
]

-- The store refines an abstract one, a function from ids to what is seen of a confirmation: each call
-- changes what is seen under its own id by one step of the abstract machine, from what was seen there
-- and the time alone, and under no other id. `Put` writes a new confirmation, or nothing where
-- it has an idempotency key that a confirmation of the store has.
pub after-step : (now : ℕ) (c : Call) (items : Store) (j : String) → Follows now c items j
unfolding after take_for_execution complete fail cancel
after-step now (put_call c) items j = put-Follows c now items j
after-step now (take_call user id) items j =
    (false, refl, take_found-Written id j now items user (lookup id items) refl)
after-step now (complete_call id result) items j =
    (false, refl, complete_found-Written id j now items result (lookup id items) refl)
after-step now (fail_call id) items j =
    (false, refl, fail_found-Written id j now items (lookup id items) refl)
after-step now (cancel_call user id) items j =
    (false, refl, cancel_found-Written id j now items user (lookup id items) refl)
