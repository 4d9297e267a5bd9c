-- ===== src/Orders/Service/Confirm/Again.antt =====
-- A confirmation that was confirmed once, or failed just before, in internal/orders/service.go.
use joinanny.Base.{ℕ, ◌≡◌, refl, ◌∙◌, sym, subst, String, Bool, Option, List, []}
use joinanny.Orders.Store.{
  ConfirmationStatus, Confirmation, ConfirmationRecord, ExecutionResult, Store, StoreError, Taken,
  refused, done, taken, take_for_execution,
}
use joinanny.Orders.Store.Backed.{
  RowIs, Remembers, Backed, take_for_execution-Backed, take_remembered, take_failed, complete_row,
  complete-Remembers, fail_row,
}
use joinanny.Orders.Service.{
  Found, Executed, execution_error, execution, ServiceError, store_error, Confirming, confirmed,
  rejected, Effect, ServiceState, Reply,
}
use joinanny.Orders.Service.Confirm.{
  Resolved, unresolved, resolved, executor_for, fail_executing, finish, executed_as, execute_by,
  confirm_taken, confirm,
}

abbrev pub FailedRow : ℕ → String → Store → Type 0
FailedRow user id items = (r : ConfirmationRecord) × RowIs user id ConfirmationStatus.failed r items

-- What an outcome says about the row that it leaves.
abbrev Settles : ℕ → String → Confirming → Store → Type 0
Settles user id (confirmed r) items = Remembers user id r items
Settles user id (rejected e) items = FailedRow user id items

module _ {E : Type 0} (execute : E → Confirmation → Executed) (user : ℕ) (id : String) (now : ℕ)
    (c : Confirmation) (s : ServiceState) (r : ConfirmationRecord)
    (row : RowIs user id ConfirmationStatus.executing r s.store) where
  fail_executing-Settles :
      (e : ServiceError) (told : List (Effect E))
      → Settles user id
          (fail_executing id c e s told).outcome
          (fail_executing id c e s told).state.store
  unfolding fail_executing
  fail_executing-Settles e told = fail_row user id ConfirmationStatus.executing r s.store row

  executed_as-Settles :
      (a : Executed) (told : List (Effect E))
      → Settles user id
          (executed_as user id c now a s told).outcome
          (executed_as user id c now a s told).state.store
  unfolding executed_as finish
  executed_as-Settles (execution_error e) told =
      fail_executing-Settles (ServiceError.executor_error e) told
  executed_as-Settles (execution result) told =
      rw (complete_row user id ConfirmationStatus.executing r s.store row result)
        (complete-Remembers user id ConfirmationStatus.executing r s.store row result)

  execute_by-Settles :
      (x : Resolved E) (told : List (Effect E))
      → Settles user id
          (execute_by execute user id c now x s told).outcome
          (execute_by execute user id c now x s told).state.store
  unfolding execute_by
  execute_by-Settles (unresolved e) told = fail_executing-Settles e told
  execute_by-Settles (resolved x) told = executed_as-Settles (execute x c) _

-- A reply that is the answer of the store alone, or leaves the user's row settled.
abbrev AnswersFor : {E : Type 0} → ℕ → String → Taken × Store → Reply E → Type 0
AnswersFor user id (refused e, items) reply = reply.outcome ≡ rejected (store_error e)
AnswersFor user id (done c r, items) reply =
    (reply.outcome ≡ confirmed r) × Remembers user id r reply.state.store
AnswersFor user id (taken c, items) reply = Settles user id reply.outcome reply.state.store

confirm_taken-AnswersFor :
    {E : Type 0} (execute : E → Confirmation → Executed) (user : ℕ) (id : String) (now : ℕ)
    (x : Resolved E) (p : Taken × Store) (s : ServiceState)
    → Backed user id p
    → AnswersFor user id p (confirm_taken execute user id now x p s)
unfolding confirm_taken
confirm_taken-AnswersFor execute user id now x (refused e, items) s b = refl
confirm_taken-AnswersFor execute user id now x (done c r, items) s b = (refl, b)
confirm_taken-AnswersFor execute user id now x (taken c, items) s (r, row, same) =
    execute_by-Settles execute user id now c (record s { store = items }) r row x _

confirmed≢rejected : (r : ExecutionResult) (e : ServiceError) → ¬ confirmed r ≡ rejected e
confirmed≢rejected r e h = cc

confirmed_inj : (r q : ExecutionResult) → confirmed r ≡ confirmed q → r ≡ q
confirmed_inj r q h = cc

module _ {E : Type 0} (d : E) (p : Option (ℕ → Found E)) (x : E → Confirmation → Executed)
    (user : ℕ) (id : String) (now : ℕ) (required : Bool) (s : ServiceState) where
  confirm-AnswersFor :
      AnswersFor user id
        (take_for_execution user id now s.store)
        (confirm d p x user id now required s)
  unfolding confirm
  confirm-AnswersFor =
      confirm_taken-AnswersFor x user id now (executor_for d p user required)
        (take_for_execution user id now s.store) s (take_for_execution-Backed user id now s.store)

  confirm_remembered :
      (r : ExecutionResult)
      → Remembers user id r s.store
      → confirm d p x user id now required s
        ≡ record { outcome = confirmed r; state = s; effects = [] }
  unfolding confirm confirm_taken
  confirm_remembered r m = rw (take_remembered user id now s.store r m) refl

  confirm_of_failed :
      FailedRow user id s.store
      → confirm d p x user id now required s
        ≡ record { outcome = rejected (store_error StoreError.failed); state = s; effects = [] }
  unfolding confirm confirm_taken
  confirm_of_failed (r, row) = rw (take_failed user id now s.store r row) refl

confirmed-Remembers :
    {E : Type 0} (user : ℕ) (id : String) (r : ExecutionResult) (p : Taken × Store)
    (reply : Reply E)
    → AnswersFor user id p reply
    → reply.outcome ≡ confirmed r
    → Remembers user id r reply.state.store
confirmed-Remembers user id r (refused e, items) reply a h =
    absurd (confirmed≢rejected r (store_error e) (sym h ∙ a))
confirmed-Remembers user id r (done c r', items) reply (a, m) h =
    subst (λ q. Remembers user id q reply.state.store) (confirmed_inj r' r (sym a ∙ h)) m
confirmed-Remembers user id r (taken c, items) reply a h =
    subst (λ o. Settles user id o reply.state.store) h a

rejected-FailedRow :
    {E : Type 0} (user : ℕ) (id : String) (c : Confirmation) (e : ServiceError) (p : Taken × Store)
    (reply : Reply E)
    → AnswersFor user id p reply
    → p.0 ≡ taken c
    → reply.outcome ≡ rejected e
    → FailedRow user id reply.state.store
rejected-FailedRow user id c e (refused e', items) reply a t h = cc
rejected-FailedRow user id c e (done c' r', items) reply a t h = cc
rejected-FailedRow user id c e (taken c', items) reply a t h =
    subst (λ o. Settles user id o reply.state.store) h a

-- Once confirmed, confirmed for good: after a confirm of the user has returned a result, whatever the
-- executors, the provider and the exchange answer later, a confirm of the id by the same user returns
-- the same result, sends nothing, tells nothing and leaves the state as it is.
pub confirm-confirm :
    {E : Type 0} (d d' : E) (p p' : Option (ℕ → Found E)) (x x' : E → Confirmation → Executed)
    (user : ℕ) (id : String) (now now' : ℕ) (required required' : Bool) (s : ServiceState)
    (r : ExecutionResult)
    → (confirm d p x user id now required s).outcome ≡ confirmed r
    → confirm d' p' x' user id now' required' (confirm d p x user id now required s).state
      ≡ record {
        outcome = confirmed r;
        state = (confirm d p x user id now required s).state;
        effects = [];
      }
confirm-confirm d d' p p' x x' user id now now' required required' s r h =
    confirm_remembered d' p' x' user id now' required' (confirm d p x user id now required s).state
      r
      (confirmed-Remembers user id r (take_for_execution user id now s.store)
        (confirm d p x user id now required s) (confirm-AnswersFor d p x user id now required s) h)

-- A failed execution is not tried again by confirming: right behind a confirm that was handed the
-- confirmation for execution and returned an error, a confirm of the id by the same user is refused
-- with the failed status, whatever the executors, the provider and the exchange answer to it; it sends
-- nothing and leaves the state as it is.
pub confirm_failed :
    {E : Type 0} (d d' : E) (p p' : Option (ℕ → Found E)) (x x' : E → Confirmation → Executed)
    (user : ℕ) (id : String) (now now' : ℕ) (required required' : Bool) (s : ServiceState)
    (c : Confirmation) (e : ServiceError)
    → (take_for_execution user id now s.store).0 ≡ taken c
    → (confirm d p x user id now required s).outcome ≡ rejected e
    → confirm d' p' x' user id now' required' (confirm d p x user id now required s).state
      ≡ record {
        outcome = rejected (store_error StoreError.failed);
        state = (confirm d p x user id now required s).state;
        effects = [];
      }
confirm_failed d d' p p' x x' user id now now' required required' s c e t h =
    confirm_of_failed d' p' x' user id now' required' (confirm d p x user id now required s).state (
      rejected-FailedRow user id c e (take_for_execution user id now s.store)
        (confirm d p x user id now required s) (confirm-AnswersFor d p x user id now required s) t
        h)
