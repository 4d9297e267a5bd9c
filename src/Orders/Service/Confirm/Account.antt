-- ===== src/Orders/Service/Confirm/Account.antt =====
-- Whose account an order of internal/orders/service.go goes to.
use joinanny.Base.{ℕ, ◌≡◌, refl, subst, String, true, Option, none, some, List, ◌==◌, All}
use joinanny.Orders.Store.{
  Confirmation, ExecutionResult, Store, StoreError, Taken, refused, done, taken, take_for_execution,
  complete,
}
use joinanny.Base.Lists.{All-append}
use joinanny.Orders.Store.Backed.{Backed, take_for_execution-Backed}
use joinanny.Orders.Service.{
  Found, lookup_error, absent, found, Executed, execution_error, execution, ServiceError, Effect,
  sent, intent_status, audited, ServiceState,
}
use joinanny.Orders.Service.Confirm.{
  Resolved, unresolved, resolved, required_of_found, required_executor_for_user, fail_executing,
  finish, executed_as, execute_by, confirm_taken, confirm,
}

-- The provider found this executor for the user.
abbrev pub IsOwn : {E : Type 0} → Option (ℕ → Found E) → ℕ → E → Type 0
IsOwn none user x = ⊥
IsOwn (some find) user x = find user ≡ found x

-- An order of the user goes to the executor found for that user.
abbrev pub ToOwn : {E : Type 0} → Option (ℕ → Found E) → ℕ → Effect E → Type 0
ToOwn p user (sent x c) = IsOwn p user x × ((c.user_id == user) ≡ true)
ToOwn p user (intent_status id s) = Unit {0}
ToOwn p user (audited kind id) = Unit {0}

required_of_found-resolved :
    {E : Type 0} (f : Found E) (x : E) → required_of_found f ≡ resolved x → f ≡ found x
unfolding required_of_found
required_of_found-resolved (lookup_error e) x h = cc
required_of_found-resolved absent x h = cc
required_of_found-resolved (found y) x h = cc

required-IsOwn :
    {E : Type 0} (p : Option (ℕ → Found E)) (user : ℕ) (x : E)
    → required_executor_for_user p user ≡ resolved x
    → IsOwn p user x
unfolding required_executor_for_user
required-IsOwn none user x h = cc
required-IsOwn (some find) user x h = required_of_found-resolved (find user) x h

module _ {E : Type 0} (p : Option (ℕ → Found E)) (execute : E → Confirmation → Executed) (user : ℕ)
    (id : String) (now : ℕ) (c : Confirmation) (mine : (c.user_id == user) ≡ true) where
  fail_executing-ToOwn :
      (e : ServiceError) (s : ServiceState) (told : List (Effect E))
      → All (ToOwn p user) told
      → All (ToOwn p user) (fail_executing id c e s told).effects
  unfolding fail_executing
  fail_executing-ToOwn e s told h = All-append (ToOwn p user) told _ h (tt, (tt, tt))

  finish-ToOwn :
      (r : ExecutionResult) (answer : Option StoreError × Store) (s : ServiceState)
      (told : List (Effect E))
      → All (ToOwn p user) told
      → All (ToOwn p user) (finish user c r now answer s told).effects
  unfolding finish
  finish-ToOwn r (some e, items) s told h = h
  finish-ToOwn r (none, items) s told h = All-append (ToOwn p user) told _ h (tt, (tt, tt))

  executed_as-ToOwn :
      (a : Executed) (s : ServiceState) (told : List (Effect E))
      → All (ToOwn p user) told
      → All (ToOwn p user) (executed_as user id c now a s told).effects
  unfolding executed_as
  executed_as-ToOwn (execution_error e) s told h =
      fail_executing-ToOwn (ServiceError.executor_error e) s told h
  executed_as-ToOwn (execution r) s told h = finish-ToOwn r (complete id r s.store) s told h

  execute_by-ToOwn :
      (x : Resolved E) (s : ServiceState) (told : List (Effect E))
      → required_executor_for_user p user ≡ x
      → All (ToOwn p user) told
      → All (ToOwn p user) (execute_by execute user id c now x s told).effects
  unfolding execute_by
  execute_by-ToOwn (unresolved e) s told own h = fail_executing-ToOwn e s told h
  execute_by-ToOwn (resolved x) s told own h =
      executed_as-ToOwn (execute x c) s _
        (All-append (ToOwn p user) told _ h ((required-IsOwn p user x own, mine), tt))

confirm_taken-ToOwn :
    {E : Type 0} (p : Option (ℕ → Found E)) (execute : E → Confirmation → Executed) (user : ℕ)
    (id : String) (now : ℕ) (t : Taken × Store) (s : ServiceState)
    → Backed user id t
    → All
        (ToOwn p user)
        (confirm_taken execute user id now (required_executor_for_user p user) t s).effects
unfolding confirm_taken
confirm_taken-ToOwn p execute user id now (refused e, items) s b = tt
confirm_taken-ToOwn p execute user id now (done c r, items) s b = tt
confirm_taken-ToOwn p execute user id now (taken c, items) s (r, row, same) =
    execute_by-ToOwn p execute user id now c (subst (λ q. (q.user_id == user) ≡ true) same row.2)
      (required_executor_for_user p user) (record s { store = items }) _ refl (tt, tt)

-- No order on another account: every order that a confirm with a required executor sends is a
-- confirmation of that user, and goes to the executor that the provider found for that user; so
-- never to the default executor, and nothing is sent when there is no provider, it fails, or it
-- finds none.
pub required_confirm-ToOwn :
    {E : Type 0} (default : E) (p : Option (ℕ → Found E)) (execute : E → Confirmation → Executed)
    (user : ℕ) (id : String) (now : ℕ) (s : ServiceState)
    → All (ToOwn p user) (confirm default p execute user id now true s).effects
unfolding confirm
required_confirm-ToOwn default p execute user id now s =
    confirm_taken-ToOwn p execute user id now (take_for_execution user id now s.store) s
      (take_for_execution-Backed user id now s.store)
