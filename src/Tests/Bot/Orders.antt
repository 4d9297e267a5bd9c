-- ===== src/Tests/Bot/Orders.antt =====
-- Confirmations of internal/orders/service.go at concrete histories.
use joinanny.Base.{
  ℕ, ◌≤◌, ◌≡◌, refl, String, true, false, none, some, List, [], ◌∷◌, arith, All, ◌==◌,
  if◌then◌else◌,
}
use joinanny.Base.Table.{lookup, insert}
use joinanny.Domain.{is_exchange_changing, Intent, IntentType}
use joinanny.Base.Text.{trim_space}
use joinanny.Orders.Store.{
  put, key_taken, Confirmation, ConfirmationStatus, ConfirmationRecord, Store, StoreError,
  no_result, taken, take_open, take_by_status, take_found, take_for_execution, complete_found,
  complete, cancel,
}
use joinanny.Orders.Store.Views.{Follows, after-step}
use joinanny.Orders.Store.Once.{
  Call, take_call, complete_call, times_handed_out, times_handed_out-le,
}
use joinanny.Orders.Store.Backed.{RowIs, Remembers}
use joinanny.Orders.Store.Cancelled.{complete-cancel}
use joinanny.Orders.Service.{
  Found, absent, found, Executed, execution, execution_error, executor_error, store_error,
  confirmed, rejected, ServiceState,
}
use joinanny.Orders.Service.Prepare.{
  prepared, Answers, new_confirmation, idempotency_key_of, prepare_with, store_prepared,
  put_prepared, audited_as, prepare,
}
use joinanny.Orders.Service.Prepare.Lifetime.{take-prepare}
use joinanny.Orders.Service.Confirm.{
  fail_executing, finish, executed_as, execute_by, confirm_taken, confirm,
  required_executor_for_user, required_of_found,
}
use joinanny.Orders.Service.Confirm.Account.{ToOwn, required_confirm-ToOwn}
use joinanny.Orders.Service.Confirm.Again.{confirm-confirm, confirm_failed}

abbrev status_intent : Intent
status_intent = record {
  kind = IntentType.breakeven;
  raw_text = "be btc";
  opening = none;
  closing = none;
  breakeven = some (record { symbol = "BTC" });
  trail = none;
  add = none;
  plan_status = none;
}

abbrev confirmation_in : ConfirmationStatus → Confirmation
confirmation_in status = record {
  id = "c";
  user_id = 7;
  intent = status_intent;
  status = status;
  correlation_id = "x";
  intent_hash = "h";
  idempotency_key = "confirm:c";
  created_at = 10;
  expires_at = 100;
}

abbrev row_in : ConfirmationStatus → ConfirmationRecord
row_in status = record { confirmation = confirmation_in status; result = no_result }

abbrev pending_store : Store
pending_store = ("c", row_in ConfirmationStatus.pending) ∷ []

abbrev executing_store : Store
executing_store = ("c", row_in ConfirmationStatus.executing) ∷ []

abbrev history : List (ℕ × Call)
history =
    (20, take_call 7 "c")
    ∷ (21, take_call 7 "c")
    ∷ (22, complete_call "c" no_result)
    ∷ (23, take_call 7 "c")
    ∷ []

times_handed_out-le_example : times_handed_out "c" history pending_store ≤ 1
times_handed_out-le_example =
    times_handed_out-le "c" 10 history pending_store
      (omega arith, (omega arith, (omega arith, (omega arith, tt)))) (tt, (tt, (tt, (tt, tt))))

after-step_example : Follows 20 (take_call 7 "c") pending_store "c"
after-step_example = after-step 20 (take_call 7 "c") pending_store "c"

executing_there :
    RowIs 7 "c" ConfirmationStatus.executing (row_in ConfirmationStatus.executing) executing_store
unfolding lookup
executing_there = (refl, refl, refl)

complete-cancel_example :
    ((cancel 7 "c" 50 executing_store).0 ≡ none)
    × ((complete "c" no_result (cancel 7 "c" 50 executing_store).1).0 ≡ none)
    × Remembers 7 "c" no_result (complete "c" no_result (cancel 7 "c" 50 executing_store).1).1
complete-cancel_example =
    complete-cancel 7 "c" 50 (row_in ConfirmationStatus.executing) executing_store no_result
      executing_there refl

-- Executors are named by a text; only user 7 has one.
abbrev own_of : ℕ → Found String
own_of user = if user == 7 then found "own" else absent

abbrev fills : String → Confirmation → Executed
fills x c = execution no_result

abbrev breaks : String → Confirmation → Executed
breaks x c = execution_error "rejected by the exchange"

abbrev before : ServiceState
before = record { store = pending_store; journal = some [] }

required_confirm-ToOwn_example :
    All (ToOwn (some own_of) 7) (confirm "shared" (some own_of) fills 7 "c" 50 true before).effects
required_confirm-ToOwn_example = required_confirm-ToOwn "shared" (some own_of) fills 7 "c" 50 before

own_confirms :
    (confirm "shared" (some own_of) fills 7 "c" 50 true before).outcome ≡ confirmed no_result
unfolding confirm take_for_execution lookup confirm_taken take_found take_by_status take_open
    execute_by required_executor_for_user required_of_found executed_as finish complete
    complete_found insert
own_confirms = refl

confirm-confirm_example :
    confirm "shared" none breaks 7 "c" 60 false
      (confirm "shared" (some own_of) fills 7 "c" 50 true before).state
    ≡ record {
      outcome = confirmed no_result;
      state = (confirm "shared" (some own_of) fills 7 "c" 50 true before).state;
      effects = [];
    }
confirm-confirm_example =
    confirm-confirm "shared" "shared" (some own_of) none fills breaks 7 "c" 50 60 true false before
      no_result own_confirms

own_taken :
    (take_for_execution 7 "c" 50 before.store).0
    ≡ taken (confirmation_in ConfirmationStatus.executing)
unfolding take_for_execution lookup take_found take_by_status take_open
own_taken = refl

own_fails :
    (confirm "shared" (some own_of) breaks 7 "c" 50 true before).outcome
    ≡ rejected (executor_error "rejected by the exchange")
unfolding confirm take_for_execution lookup confirm_taken take_found take_by_status take_open
    execute_by required_executor_for_user required_of_found executed_as fail_executing
own_fails = refl

confirm_failed_example :
    confirm "shared" none fills 7 "c" 60 false
      (confirm "shared" (some own_of) breaks 7 "c" 50 true before).state
    ≡ record {
      outcome = rejected (store_error StoreError.failed);
      state = (confirm "shared" (some own_of) breaks 7 "c" 50 true before).state;
      effects = [];
    }
confirm_failed_example =
    confirm_failed "shared" "shared" (some own_of) none breaks fills 7 "c" 50 60 true false before
      (confirmation_in ConfirmationStatus.executing) (executor_error "rejected by the exchange")
      own_taken own_fails

abbrev answers : Answers
answers = record {
  id = some "n";
  correlation_id = some "x";
  intent_hash = some "h";
  intent_error = none;
  audit_error = none;
}

abbrev new_one : Confirmation
new_one = record {
  id = "n";
  user_id = 7;
  intent = status_intent;
  status = ConfirmationStatus.pending;
  correlation_id = "x";
  intent_hash = "h";
  idempotency_key = "confirm:n";
  created_at = 10;
  expires_at = 70;
}

prepares : (prepare 60 7 status_intent "" answers 10 pending_store).0 ≡ prepared new_one
unfolding prepare is_exchange_changing prepare_with store_prepared put_prepared put new_confirmation
    idempotency_key_of trim_space key_taken audited_as
prepares = refl

take-prepare_example :
    (take_for_execution 7 "n" 50 (prepare 60 7 status_intent "" answers 10 pending_store).1).0
    ≡ taken (record new_one { status = ConfirmationStatus.executing })
take-prepare_example =
    take-prepare 60 7 status_intent "" answers 10 50 pending_store new_one prepares refl
