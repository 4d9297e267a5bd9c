-- ===== src/Orders/Service.antt =====
-- internal/orders/service.go: `Service.confirm` and `Cancel`, with the executor of the user, the
-- journal and the trail of intent statuses and audit events. Errors of the intent store, the audit
-- recorder and the journal are only logged by the source, so they do not show here.
pub mod Prepare
pub mod Confirm
use joinanny.Base.{
  ℕ, String, Bool, true, false, not, ◌||◌, Option, none, some, List, [], ◌∷◌, ltb, ◌==◌,
  if◌then◌else◌,
}
use joinanny.Base.Int.{pos}
use joinanny.Base.Text.{trim_space, equal_fold}
use joinanny.Base.Table.{Table}
use text.Mathlib.Text.{◌==◌ as str_eq}
use joinanny.Decimal.{Decimal, decimal_zero, is_positive, is_lt, cmp}
use joinanny.Domain.{Intent, IntentType, OpenIntent, CloseIntent, OrderSize, SizeKind, Side}
use joinanny.Journal.{Trade, Outcome, CloseUpdate, record_trade, close_service}
use joinanny.Orders.Store.{
  Confirmation, ExecutionResult, StoreError, Store, Taken, refused, done, taken, take_for_execution,
  complete, fail, cancel, zero_decimal,
}

pub data IntentStatus : Type 0 where
  awaiting_confirmation executing executed cancelled expired failed : IntentStatus

-- What `ExecutorProvider.ExecutorFor` answers.
pub data Found (E : Type 0) : Type 0 where
  lookup_error : String → Found E
  absent : Found E
  found : E → Found E

-- What `Executor.Execute` answers.
pub data Executed : Type 0 where
  execution_error : String → Executed
  execution : ExecutionResult → Executed

pub data ServiceError : Type 0 where
  store_error : StoreError → ServiceError
  no_provider : ServiceError
  provider_error : String → ServiceError
  no_executor : ServiceError
  executor_error : String → ServiceError

pub data Confirming : Type 0 where
  confirmed : ExecutionResult → Confirming
  rejected : ServiceError → Confirming

-- What the service tells the outside, in order: an order sent to an executor, a status of the intent
-- record, an audit event.
pub data Effect (E : Type 0) : Type 0 where
  sent : E → Confirmation → Effect E
  intent_status : String → IntentStatus → Effect E
  audited : String → String → Effect E

pub record ServiceState : Type 0 where
  pub store : Store
  pub journal : Option (Table Trade)

abbrev pub side_text : Side → String
side_text Side.long = "long"
side_text Side.short = "short"
side_text (Side.other s) = s

abbrev pub first_target : List Decimal → Decimal
first_target [] = decimal_zero
first_target (t ∷ ts) = t

abbrev pub size_usdt_of : OrderSize → Decimal
size_usdt_of s = elim s.kind [ SizeKind.usdt ↦ s.amount | _ ↦ zero_decimal ]

abbrev pub quantity_of : OrderSize → Decimal
quantity_of s = elim s.kind [ SizeKind.qty ↦ s.amount | _ ↦ zero_decimal ]

-- The row that `recordOpenTrade` writes.
unfoldable pub open_trade : ℕ → Confirmation → OpenIntent → ExecutionResult → ℕ → Trade
open_trade user c o r now = record {
  id = c.id;
  user_id = user;
  campaign_id = trim_space o.campaign_id;
  confirmation_id = c.id;
  symbol = o.symbol;
  side = side_text o.side;
  strategy = trim_space o.strategy;
  models = o.models;
  reason = trim_space o.reason;
  confidence = o.confidence;
  leverage = o.leverage;
  mode = r.mode;
  entry = o.entry;
  exit = zero_decimal;
  stop_loss = o.stop_loss;
  take_profit = first_target o.take_profits;
  size_usdt = size_usdt_of o.size;
  quantity = if is_positive r.quantity then r.quantity else quantity_of o.size;
  pnl_usdt = zero_decimal;
  outcome = Outcome.opened;
  opened_at = now;
  closed_at = 0;
}

pub record_open_found :
    ℕ
    → Confirmation
    → ExecutionResult
    → ℕ
    → IntentType
    → Option OpenIntent
    → Table Trade
    → Table Trade
record_open_found user c r now IntentType.open_position (some o) trades =
    if equal_fold (trim_space r.mode) "dry_run"
    then trades
    else (record_trade (open_trade user c o r now) trades).1
record_open_found user c r now _ _ trades = trades

-- `recordOpenTrade`.
unfoldable pub record_open_trade :
    ℕ → Confirmation → ExecutionResult → ℕ → Table Trade → Table Trade
record_open_trade user c r now trades =
    record_open_found user c r now c.intent.kind c.intent.opening trades

unfoldable pub outcome_of_pnl : Decimal → Outcome
outcome_of_pnl pnl =
    if is_positive pnl
    then Outcome.win
    else if is_lt (cmp pnl decimal_zero)
    then Outcome.loss
    else Outcome.breakeven

abbrev pub entry_of : Option CloseIntent → String
entry_of none = ""
entry_of (some i) = trim_space i.entry_confirmation_id

-- The row of a close that names no entry.
unfoldable pub legacy_close : ℕ → Confirmation → ExecutionResult → ℕ → Trade
legacy_close user c r now = record {
  id = c.id;
  user_id = user;
  campaign_id = "";
  confirmation_id = c.id;
  symbol = r.symbol;
  side = r.side;
  strategy = "";
  models = [];
  reason = "";
  confidence = pos 0;
  leverage = pos 0;
  mode = r.mode;
  entry = zero_decimal;
  exit = zero_decimal;
  stop_loss = zero_decimal;
  take_profit = zero_decimal;
  size_usdt = zero_decimal;
  quantity = zero_decimal;
  pnl_usdt = r.realized_pnl;
  outcome = outcome_of_pnl r.realized_pnl;
  opened_at = 0;
  closed_at = now;
}

pub record_closed_found :
    ℕ → Confirmation → ExecutionResult → ℕ → IntentType → String → Table Trade → Table Trade
record_closed_found user c r now IntentType.close_position entry trades =
    if str_eq entry ""
    then (record_trade (legacy_close user c r now) trades).1
    else (close_service entry
        (record {
          exit = r.exit_price;
          pnl_usdt = r.realized_pnl;
          outcome = outcome_of_pnl r.realized_pnl;
          closed_at = now;
          mode = r.mode;
        })
        now trades).1
record_closed_found user c r now _ entry trades = trades

-- `recordClosedTrade`.
unfoldable pub record_closed_trade :
    ℕ → Confirmation → ExecutionResult → ℕ → Table Trade → Table Trade
record_closed_trade user c r now trades =
    record_closed_found user c r now c.intent.kind (entry_of c.intent.closing) trades

unfoldable pub journal_result :
    ℕ → Confirmation → ExecutionResult → ℕ → Option (Table Trade) → Option (Table Trade)
journal_result user c r now none = none
journal_result user c r now (some trades) =
    some (record_closed_trade user c r now (record_open_trade user c r now trades))

-- What a call returns: its outcome, the state and what it told the outside.
pub record Reply (E : Type 0) : Type 0 where
  pub outcome : Confirming
  pub state : ServiceState
  pub effects : List (Effect E)
