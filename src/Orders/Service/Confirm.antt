-- ===== src/Orders/Service/Confirm.antt =====
-- internal/orders/service.go: `Prepare`, `confirm` and `Cancel` of the service. The executors, the
-- provider that finds the executor of a user and the answer of an exchange are parameters.
pub mod Again
pub mod Account
use joinanny.Base.{
  ℕ, ◌+◌, String, Bool, true, false, not, ◌++◌, Option, none, some, List, [], ◌∷◌, if◌then◌else◌,
}
use joinanny.Base.Text.{trim_space}
use text.Mathlib.Text.{◌==◌ as str_eq}
use joinanny.Domain.{Intent, is_exchange_changing}
use joinanny.Orders.Store.{
  Confirmation, ConfirmationStatus, ExecutionResult, Store, StoreError, Taken, refused, done, taken,
  put, take_for_execution, complete, fail, cancel,
}
use joinanny.Orders.Service.{
  IntentStatus, Found, lookup_error, absent, found, Executed, execution_error, execution,
  ServiceError, store_error, no_provider, provider_error, no_executor, executor_error, Confirming,
  confirmed, rejected, Effect, sent, intent_status, audited, ServiceState, Reply, journal_result,
}

-- `executorForUser`.
unfoldable pub executor_of_found : {E : Type 0} → E → Found E → E
executor_of_found default (lookup_error e) = default
executor_of_found default absent = default
executor_of_found default (found x) = x

unfoldable pub executor_for_user : {E : Type 0} → E → Option (ℕ → Found E) → ℕ → E
executor_for_user default none user = default
executor_for_user default (some find) user = executor_of_found default (find user)

-- What `requiredExecutorForUser` returns.
pub data Resolved (E : Type 0) : Type 0 where
  unresolved : ServiceError → Resolved E
  resolved : E → Resolved E

unfoldable pub required_of_found : {E : Type 0} → Found E → Resolved E
required_of_found (lookup_error e) = unresolved (provider_error e)
required_of_found absent = unresolved no_executor
required_of_found (found x) = resolved x

unfoldable pub required_executor_for_user : {E : Type 0} → Option (ℕ → Found E) → ℕ → Resolved E
required_executor_for_user none user = unresolved no_provider
required_executor_for_user (some find) user = required_of_found (find user)

-- The executor that a confirm uses.
abbrev pub executor_for : {E : Type 0} → E → Option (ℕ → Found E) → ℕ → Bool → Resolved E
executor_for default provider user true = required_executor_for_user provider user
executor_for default provider user false = resolved (executor_for_user default provider user)

-- `failExecutingConfirmation`, with the error that the caller returns.
unfoldable pub fail_executing :
    {E : Type 0} → String → Confirmation → ServiceError → ServiceState → List (Effect E) → Reply E
fail_executing id c e s told = record {
  outcome = rejected e;
  state = record s { store = (fail id s.store).1 };
  effects =
      told ++ (intent_status c.id IntentStatus.failed ∷ audited "confirmation_failed" c.id ∷ []);
}

-- The end of `confirm`, behind `store.Complete`.
unfoldable pub finish :
    {E : Type 0}
    → ℕ
    → Confirmation
    → ExecutionResult
    → ℕ
    → Option StoreError × Store
    → ServiceState
    → List (Effect E)
    → Reply E
finish user c r now (some e, items) s told = record {
  outcome = rejected (store_error e);
  state = record s { store = items };
  effects = told;
}
finish user c r now (none, items) s told = record {
  outcome = confirmed r;
  state = record { store = items; journal = journal_result user c r now s.journal };
  effects =
      told
      ++ (intent_status c.id IntentStatus.executed ∷ audited "confirmation_executed" c.id ∷ []);
}

-- `confirm` behind `executor.Execute`.
unfoldable pub executed_as :
    {E : Type 0}
    → ℕ
    → String
    → Confirmation
    → ℕ
    → Executed
    → ServiceState
    → List (Effect E)
    → Reply E
executed_as user id c now (execution_error e) s told = fail_executing id c (executor_error e) s told
executed_as user id c now (execution r) s told = finish user c r now (complete id r s.store) s told

-- `confirm` behind the choice of the executor.
unfoldable pub execute_by :
    {E : Type 0}
    → (E → Confirmation → Executed)
    → ℕ
    → String
    → Confirmation
    → ℕ
    → Resolved E
    → ServiceState
    → List (Effect E)
    → Reply E
execute_by execute user id c now (unresolved e) s told = fail_executing id c e s told
execute_by execute user id c now (resolved x) s told =
    executed_as user id c now (execute x c) s (told ++ (sent x c ∷ []))

-- `confirm` behind `store.TakeForExecution`.
unfoldable pub confirm_taken :
    {E : Type 0}
    → (E → Confirmation → Executed)
    → ℕ
    → String
    → ℕ
    → Resolved E
    → Taken × Store
    → ServiceState
    → Reply E
confirm_taken execute user id now x (refused e, items) s = record {
  outcome = rejected (store_error e);
  state = record s { store = items };
  effects = [];
}
confirm_taken execute user id now x (done c r, items) s = record {
  outcome = confirmed r;
  state = record s { store = items };
  effects = [];
}
confirm_taken execute user id now x (taken c, items) s =
    execute_by execute user id c now x (record s { store = items })
      (intent_status c.id IntentStatus.executing ∷ [])

-- `confirm`, whose last flag is set by `ConfirmWithRequiredUserExecutor` and not by `Confirm`.
unfoldable pub confirm :
    {E : Type 0}
    → E
    → Option (ℕ → Found E)
    → (E → Confirmation → Executed)
    → ℕ
    → String
    → ℕ
    → Bool
    → ServiceState
    → Reply E
confirm default provider execute user id now required s =
    confirm_taken execute user id now (executor_for default provider user required)
      (take_for_execution user id now s.store) s

unfoldable pub cancel_effects : {E : Type 0} → String → Option StoreError → List (Effect E)
cancel_effects id none =
    intent_status id IntentStatus.cancelled ∷ audited "confirmation_cancelled" id ∷ []
cancel_effects id (some StoreError.expired) = intent_status id IntentStatus.expired ∷ []
cancel_effects id (some e) = []

-- `Cancel` of the service: its error, the state and what it told the outside.
unfoldable pub cancel_service :
    {E : Type 0}
    → ℕ
    → String
    → ℕ
    → ServiceState
    → Option StoreError × ServiceState × List (Effect E)
cancel_service user id now s =
    let answer = cancel user id now s.store in
    (answer.0, record s { store = answer.1 }, cancel_effects id answer.0)
