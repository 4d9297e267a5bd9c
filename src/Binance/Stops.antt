-- ===== src/Binance/Stops.antt =====
-- internal/exchange/binance/executor.go: `CurrentStop` and `MoveStopLoss`, the calls of the monitor.
pub mod NewFirst
use joinanny.Base.{String, Bool, true, false, Option, none, some, List, [], ◌∷◌, if◌then◌else◌}
use text.Mathlib.Text.{◌==◌ as str_eq}
use joinanny.Decimal.{Decimal, floor_to_step}
use joinanny.Domain.{PositionSide}
use joinanny.Monitor.Tick.{StopState}
use joinanny.Binance.{Error, AlgoOpenOrder, SymbolFilters, ExecutorConfig, Network, ExecutorState}
use joinanny.Binance.Exec.{Result, ok, err, Exec, pure, raise, lift, attempt, ◌>>=◌, ◌>>◌}
use joinanny.Binance.Request.{
  Action, config_result, open_algo_orders, new_algo_order, cancel_algo_order,
}
use joinanny.Binance.Filters.{of_exact, or_error, symbol_filters}
use joinanny.Binance.Quantity.{parse_default, exit_side}
use joinanny.Binance.Opening.{trigger_params}

-- The first stop among the open orders, if there is one.
unfoldable pub first_stop : List AlgoOpenOrder → Result Error (Option StopState)
first_stop [] = ok none
first_stop (o ∷ os) =
    if str_eq o.order_type "STOP_MARKET"
    then or_error (parse_default o.trigger_price)
        (λ price. ok (some (record { price = price; client_algo_id = o.client_algo_id })))
    else first_stop os

module _ (net : Network) (cfg : ExecutorConfig) where
  unfoldable pub current_checked : String → Action net (Option StopState)
  unfolding open_algo_orders first_stop
  current_checked symbol = open_algo_orders net symbol >>= λ orders. lift (first_stop orders)

  -- `CurrentStop`.
  unfoldable pub current_stop : String → Action net (Option StopState)
  unfolding config_result current_checked
  current_stop symbol = lift (config_result cfg) >> current_checked symbol

  -- The new stop first; the old one is cancelled where the new one stands, and an error of that
  -- call is only logged.
  unfoldable pub replace_stop : List (String × String) → String → Action net (Unit {0})
  unfolding new_algo_order cancel_algo_order
  replace_stop params old_id = do
    new_algo_order net params
    attempt (cancel_algo_order net old_id)
    pure tt

  unfoldable pub move_rounded :
      String → PositionSide → Decimal → String → String → SymbolFilters → Action net (Unit {0})
  unfolding replace_stop
  move_rounded symbol side new_stop old_id new_id filters = do
    stop ← lift (of_exact (floor_to_step new_stop filters.tick_size))
    replace_stop (trigger_params symbol (exit_side side) "STOP_MARKET" stop new_id) old_id

  -- `MoveStopLoss` behind the check of the configuration.
  unfoldable pub move_checked :
      String → PositionSide → Decimal → String → String → Action net (Unit {0})
  unfolding symbol_filters move_rounded
  move_checked symbol side new_stop old_id new_id =
      symbol_filters net cfg symbol >>= move_rounded symbol side new_stop old_id new_id

  unfoldable pub move_stop_loss :
      String → PositionSide → Decimal → String → String → Action net (Unit {0})
  unfolding config_result move_checked
  move_stop_loss symbol side new_stop old_id new_id =
      lift (config_result cfg) >> move_checked symbol side new_stop old_id new_id
