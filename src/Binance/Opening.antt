-- ===== src/Binance/Opening.antt =====
-- internal/exchange/binance/executor.go: `executeOpen`. The text of the result's message is left out;
-- the answers to the three orders that it prints are kept.
pub mod Fits
pub mod Leg
pub mod Outcome
use joinanny.Base.{ℕ, String, Bool, true, false, Option, none, some, List, [], ◌∷◌, if◌then◌else◌}
use joinanny.Base.Int.{ℤ}
use joinanny.Decimal.{Decimal, floor_to_step}
use joinanny.Decimal.Text.{to_string}
use joinanny.Domain.{OpenIntent}
use joinanny.Binance.{
  Error, OrderResponse, AlgoOrderResponse, SymbolFilters, ExecutorConfig, Network, ExecutorState,
}
use joinanny.Binance.Exec.{Result, ok, err, Exec, pure, raise, lift, attempt, ◌>>=◌, ◌>>◌}
use joinanny.Binance.Request.{Action, new_algo_order, change_margin_type, change_leverage}
use joinanny.Binance.Filters.{of_exact, or_error, symbol_filters}
use joinanny.Binance.Quantity.{
  client_order_id, order_sides, open_quantity, validate_quantity_and_notional,
}
use joinanny.Binance.Entry.{maker_first_entry}
use joinanny.Binance.Rollback.{rollback_open}

-- A conditional order that closes the position at a price.
abbrev pub trigger_params : String → String → String → Decimal → String → List (String × String)
trigger_params symbol side kind price id =
    ("symbol", symbol)
    ∷ ("side", side)
    ∷ ("algoType", "CONDITIONAL")
    ∷ ("type", kind)
    ∷ ("triggerPrice", to_string price)
    ∷ ("closePosition", "true")
    ∷ ("workingType", "MARK_PRICE")
    ∷ ("clientAlgoId", id)
    ∷ []

-- The rounded prices and the quantity.
pub record OpenPlan : Type 0 where
  pub entry : Decimal
  pub stop_loss : Decimal
  pub take_profit : Decimal
  pub quantity : Decimal

unfoldable pub plan_open : OpenIntent → Decimal → SymbolFilters → Result Error OpenPlan
plan_open intent target filters =
    or_error (of_exact (floor_to_step intent.entry filters.tick_size)) (λ entry.
      or_error (of_exact (floor_to_step intent.stop_loss filters.tick_size)) (λ stop_loss.
        or_error (of_exact (floor_to_step target filters.tick_size)) (λ take_profit.
          or_error (open_quantity intent entry filters) (λ quantity.
            or_error (validate_quantity_and_notional quantity entry filters) (λ _. ok (record {
              entry = entry;
              stop_loss = stop_loss;
              take_profit = take_profit;
              quantity = quantity;
            }))))))

pub record Opened : Type 0 where
  pub mode : String
  pub client_order_id : String
  pub quantity : Decimal
  pub entry_order : OrderResponse
  pub stop_order : AlgoOrderResponse
  pub take_profit_order : AlgoOrderResponse

unfoldable pub mode : ExecutorConfig → String
mode cfg = if cfg.testnet then "binance_testnet" else "binance_live"

module _ (net : Network) (cfg : ExecutorConfig) where
  -- The answer to a protecting order; where it failed, the opening is undone and the error returned.
  unfoldable pub protected_or_undone :
      String → String → Bool → Result Error AlgoOrderResponse → Action net AlgoOrderResponse
  unfolding rollback_open
  protected_or_undone symbol id stop_placed (ok response) = pure response
  protected_or_undone symbol id stop_placed (err e) =
      rollback_open net cfg symbol id stop_placed >> raise e

  unfoldable pub protect_or_undo :
      String → String → Bool → List (String × String) → Action net AlgoOrderResponse
  unfolding new_algo_order protected_or_undone
  protect_or_undo symbol id stop_placed params =
      attempt (new_algo_order net params) >>= protected_or_undone symbol id stop_placed

  -- The result of `executeOpen` from the answers to its three orders.
  unfoldable pub opened :
      OpenPlan → OrderResponse → AlgoOrderResponse → AlgoOrderResponse → Action net Opened
  opened plan entry_order stop_order take_profit_order = pure (record {
    mode = mode cfg;
    client_order_id = entry_order.client_order_id;
    quantity = plan.quantity;
    entry_order = entry_order;
    stop_order = stop_order;
    take_profit_order = take_profit_order;
  })

  unfoldable pub take_profit_behind :
      OpenIntent → String → OpenPlan → OrderResponse → AlgoOrderResponse → Action net Opened
  unfolding protect_or_undo opened
  take_profit_behind intent id plan entry_order stop_order =
      protect_or_undo intent.symbol id true (
        trigger_params intent.symbol (order_sides intent.side).1 "TAKE_PROFIT_MARKET"
          plan.take_profit (client_order_id id "tp"))
      >>= opened plan entry_order stop_order

  -- The two protecting orders behind the entry.
  unfoldable pub protect : OpenIntent → String → OpenPlan → OrderResponse → Action net Opened
  unfolding protect_or_undo take_profit_behind
  protect intent id plan entry_order =
      protect_or_undo intent.symbol id false (
        trigger_params intent.symbol (order_sides intent.side).1 "STOP_MARKET" plan.stop_loss
          (client_order_id id "sl"))
      >>= take_profit_behind intent id plan entry_order

  -- `executeOpen` behind the rounding and the checks.
  unfoldable pub open_planned : OpenIntent → String → OpenPlan → Action net Opened
  unfolding change_margin_type change_leverage maker_first_entry protect
  open_planned intent id plan = do
    change_margin_type net intent.symbol "ISOLATED"
    change_leverage net intent.symbol intent.leverage
    entry_order ←
        maker_first_entry net cfg.maker_entry_timeout intent.symbol (order_sides intent.side).0
          plan.entry plan.quantity id
    protect intent id plan entry_order

  -- `executeOpen` behind the test of the intent.
  unfoldable pub open_with_filters :
      OpenIntent → Decimal → String → SymbolFilters → Action net Opened
  unfolding plan_open open_planned
  open_with_filters intent target id filters =
      lift (plan_open intent target filters) >>= open_planned intent id

  unfoldable pub open_position : OpenIntent → Decimal → String → Action net Opened
  unfolding symbol_filters open_with_filters
  open_position intent target id =
      symbol_filters net cfg intent.symbol >>= open_with_filters intent target id

  unfoldable pub open_with : OpenIntent → String → List Decimal → Action net Opened
  unfolding open_position
  open_with intent id [] = raise Error.incomplete_intent
  open_with intent id (target ∷ more) = open_position intent target id

  -- `executeOpen`, of the confirmation's intent and id.
  unfoldable pub execute_open : Option OpenIntent → String → Action net Opened
  unfolding open_with
  execute_open none id = raise Error.incomplete_intent
  execute_open (some intent) id = open_with intent id intent.take_profits
