-- ===== src/Orders/Store.antt =====
-- internal/orders/service.go: `Confirmation`, `ExecutionResult` and `MemoryStore`. A `time.Time` is a
-- number of nanoseconds; the user ids are only compared, so they are numbers.
pub mod Rows
pub mod Answers
pub mod Backed
pub mod Cancelled
pub mod Once
pub mod Views
use joinanny.Base.{
  ℕ, String, Bool, true, false, not, Option, none, some, List, [], ◌∷◌, ltb, leb, ◌==◌, ◌&&◌,
  if◌then◌else◌,
}
use joinanny.Base.Table.{Table, lookup, insert}
use text.Mathlib.Text.{◌==◌ as str_eq}
use joinanny.Decimal.{Decimal}
use joinanny.Domain.{Intent}

pub data ConfirmationStatus : Type 0 where
  pending executing executed cancelled expired failed : ConfirmationStatus

pub data StoreError : Type 0 where
  not_found forbidden expired cancelled executed failed executing duplicate_key : StoreError

pub record Confirmation : Type 0 where
  pub id : String
  pub user_id : ℕ
  pub intent : Intent
  pub status : ConfirmationStatus
  pub correlation_id : String
  pub intent_hash : String
  pub idempotency_key : String
  pub created_at : ℕ
  pub expires_at : ℕ

pub record ExecutionResult : Type 0 where
  pub mode : String
  pub client_order_id : String
  pub message : String
  pub quantity : Decimal
  pub symbol : String
  pub side : String
  pub exit_price : Decimal
  pub realized_pnl : Decimal

abbrev pub zero_decimal : Decimal
zero_decimal = record { value = none; scale = 0 }

-- `ExecutionResult{}`.
abbrev pub no_result : ExecutionResult
no_result = record {
  mode = "";
  client_order_id = "";
  message = "";
  quantity = zero_decimal;
  symbol = "";
  side = "";
  exit_price = zero_decimal;
  realized_pnl = zero_decimal;
}

pub record ConfirmationRecord : Type 0 where
  pub confirmation : Confirmation
  pub result : ExecutionResult

-- `MemoryStore.items`.
abbrev pub Store : Type 0
Store = Table ConfirmationRecord

unfoldable pub key_taken : String → Store → Bool
key_taken key [] = false
key_taken key ((_, r) ∷ items) =
    if str_eq r.confirmation.idempotency_key key then true else key_taken key items

-- `Put`; `none` is no error.
unfoldable pub put : Confirmation → Store → Option StoreError × Store
put c items =
    if not (str_eq c.idempotency_key "") && key_taken c.idempotency_key items
    then (some StoreError.duplicate_key, items)
    else (none, insert c.id (record { confirmation = c; result = no_result }) items)

-- `Get`.
unfoldable pub get : String → Store → Option Confirmation
get id items = elim (lookup id items) [ none ↦ none | some r ↦ some r.confirmation ]

abbrev pub with_status : ConfirmationRecord → ConfirmationStatus → ConfirmationRecord
with_status r status = record r { confirmation = record r.confirmation { status = status } }

-- What `TakeForExecution` returns: an error, the result of an earlier execution (`done` in the
-- source), or the confirmation that the caller now has to execute.
pub data Taken : Type 0 where
  refused : StoreError → Taken
  done : Confirmation → ExecutionResult → Taken
  taken : Confirmation → Taken

-- The end of `TakeForExecution`: the test of the expiry.
unfoldable pub take_open : String → ConfirmationRecord → ℕ → Store → Taken × Store
take_open id r now items =
    if ltb now r.confirmation.expires_at
    then (
      taken (with_status r ConfirmationStatus.executing).confirmation,
      insert id (with_status r ConfirmationStatus.executing) items,
    )
    else (refused StoreError.expired, insert id (with_status r ConfirmationStatus.expired) items)

-- `TakeForExecution` behind the checks of the record and of its owner, by the status.
unfoldable pub take_by_status :
    ConfirmationStatus → String → ConfirmationRecord → ℕ → Store → Taken × Store
take_by_status ConfirmationStatus.executed id r now items = (done r.confirmation r.result, items)
take_by_status ConfirmationStatus.cancelled id r now items = (refused StoreError.cancelled, items)
take_by_status ConfirmationStatus.failed id r now items = (refused StoreError.failed, items)
take_by_status ConfirmationStatus.executing id r now items = (refused StoreError.executing, items)
take_by_status _ id r now items = take_open id r now items

unfoldable pub take_found : String → ℕ → ℕ → Option ConfirmationRecord → Store → Taken × Store
take_found id user now none items = (refused StoreError.not_found, items)
take_found id user now (some r) items =
    if r.confirmation.user_id == user
    then take_by_status r.confirmation.status id r now items
    else (refused StoreError.forbidden, items)

-- `TakeForExecution`.
unfoldable pub take_for_execution : ℕ → String → ℕ → Store → Taken × Store
take_for_execution user id now items = take_found id user now (lookup id items) items

unfoldable pub complete_found :
    String → ExecutionResult → Option ConfirmationRecord → Store → Option StoreError × Store
complete_found id result none items = (some StoreError.not_found, items)
complete_found id result (some r) items =
    (none, insert id (record (with_status r ConfirmationStatus.executed) { result = result }) items)

-- `Complete`.
unfoldable pub complete : String → ExecutionResult → Store → Option StoreError × Store
complete id result items = complete_found id result (lookup id items) items

unfoldable pub fail_found : String → Option ConfirmationRecord → Store → Option StoreError × Store
fail_found id none items = (some StoreError.not_found, items)
fail_found id (some r) items = (none, insert id (with_status r ConfirmationStatus.failed) items)

-- `Fail`; the in-memory store does not keep the message.
unfoldable pub fail : String → Store → Option StoreError × Store
fail id items = fail_found id (lookup id items) items

-- The end of `Cancel`: the test of the expiry.
unfoldable pub cancel_open : String → ConfirmationRecord → ℕ → Store → Option StoreError × Store
cancel_open id r now items =
    if ltb now r.confirmation.expires_at
    then (none, insert id (with_status r ConfirmationStatus.cancelled) items)
    else (some StoreError.expired, insert id (with_status r ConfirmationStatus.expired) items)

-- `Cancel` behind the checks of the record and of its owner.
unfoldable pub cancel_by_status :
    ConfirmationStatus → String → ConfirmationRecord → ℕ → Store → Option StoreError × Store
cancel_by_status ConfirmationStatus.cancelled id r now items = (none, items)
cancel_by_status ConfirmationStatus.executed id r now items = (some StoreError.executed, items)
cancel_by_status _ id r now items = cancel_open id r now items

unfoldable pub cancel_found :
    String → ℕ → ℕ → Option ConfirmationRecord → Store → Option StoreError × Store
cancel_found id user now none items = (some StoreError.not_found, items)
cancel_found id user now (some r) items =
    if r.confirmation.user_id == user
    then cancel_by_status r.confirmation.status id r now items
    else (some StoreError.forbidden, items)

-- `Cancel`.
unfoldable pub cancel : ℕ → String → ℕ → Store → Option StoreError × Store
cancel user id now items = cancel_found id user now (lookup id items) items
