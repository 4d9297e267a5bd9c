-- ===== src/Binance/Rollback.antt =====
-- internal/exchange/binance/executor.go: `flattenPosition` and `rollbackOpen`, which undo an opening
-- of which a protecting order failed.
pub mod Flattened
pub mod Undone
use joinanny.Base.{String, Bool, true, false, Option, none, some, List, [], ◌∷◌, not, if◌then◌else◌}
use text.Mathlib.Text.{◌==◌ as str_eq}
use joinanny.Decimal.{Decimal, decimal_zero, is_zero, is_lt, cmp, abs, floor_to_step}
use joinanny.Decimal.Text.{to_string}
use joinanny.Binance.{Error, PositionRisk, ExecutorConfig, Network, ExecutorState}
use joinanny.Binance.Exec.{Result, ok, err, Exec, pure, raise, lift, attempt, ◌>>=◌, ◌>>◌}
use joinanny.Binance.Request.{Action, new_order, position_risk, cancel_order, cancel_algo_order}
use joinanny.Binance.Filters.{of_exact, parse_number, symbol_filters}
use joinanny.Binance.Quantity.{client_order_id}

-- A market order that can only make the position smaller.
abbrev pub reduce_params : String → Decimal → Decimal → String → List (String × String)
reduce_params symbol amount quantity id =
    ("symbol", symbol)
    ∷ ("side", if is_lt (cmp amount decimal_zero) then "BUY" else "SELL")
    ∷ ("type", "MARKET")
    ∷ ("quantity", to_string quantity)
    ∷ ("reduceOnly", "true")
    ∷ ("newClientOrderId", id)
    ∷ []

-- The amount of a row that is the symbol's and holds something.
unfoldable pub held_amount : String → PositionRisk → Option Decimal
held_amount symbol row =
    if str_eq row.symbol symbol
    then elim (parse_number row.position_amt) [
      | ok amount ↦ if is_zero amount then none else some amount
      | err e ↦ none
    ]
    else none

-- The quantity to sell, if it is one.
unfoldable pub whole_steps : Decimal → Decimal → Option Decimal
whole_steps amount step = elim (of_exact (floor_to_step (abs amount) step)) [
  | ok quantity ↦ if is_zero quantity then none else some quantity
  | err e ↦ none
]

module _ (net : Network) (cfg : ExecutorConfig) where
  -- The loop's body behind the tests of the row.
  unfoldable pub flatten_amount : String → String → Decimal → Action net (Unit {0})
  unfolding symbol_filters new_order whole_steps
  flatten_amount symbol id amount = do
    filters ← symbol_filters net cfg symbol
    elim (whole_steps amount filters.step_size) [
      | none ↦ pure tt
      | some quantity ↦ new_order net (reduce_params symbol amount quantity id) >> pure tt
    ]

  unfoldable pub flatten_row : String → String → PositionRisk → Action net (Unit {0})
  unfolding flatten_amount held_amount
  flatten_row symbol id row = elim (held_amount symbol row) [
    | none ↦ pure tt
    | some amount ↦ flatten_amount symbol id amount
  ]

  unfoldable pub flatten_rows : String → String → List PositionRisk → Action net (Unit {0})
  unfolding flatten_row
  flatten_rows symbol id [] = pure tt
  flatten_rows symbol id (row ∷ rows) = flatten_row symbol id row >> flatten_rows symbol id rows

  -- `flattenPosition`.
  unfoldable pub flatten_position : String → String → Action net (Unit {0})
  unfolding position_risk flatten_rows
  flatten_position symbol id = position_risk net symbol >>= flatten_rows symbol id

  unfoldable pub cancel_stop_if : Bool → String → Action net (Result Error (Unit {0}))
  unfolding cancel_algo_order
  cancel_stop_if true id = attempt (cancel_algo_order net id)
  cancel_stop_if false id = pure (ok tt)

  -- `rollbackOpen`. The errors of its calls are only logged by the source.
  unfoldable pub rollback_open : String → String → Bool → Action net (Unit {0})
  unfolding cancel_stop_if cancel_order flatten_position
  rollback_open symbol confirmation_id stop_placed = do
    cancel_stop_if stop_placed (client_order_id confirmation_id "sl")
    attempt (cancel_order net false symbol (client_order_id confirmation_id "entry"))
    attempt (flatten_position symbol (client_order_id confirmation_id "rb"))
    pure tt
