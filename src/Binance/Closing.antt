-- ===== src/Binance/Closing.antt =====
-- internal/exchange/binance/executor.go: `executeClose`. The text of the result's message is left
-- out; the answers that it prints are kept.
pub mod Quantities
pub mod Reducing
use joinanny.Base.{
  String, true, false, not, ◌||◌, ◌&&◌, Option, none, some, List, [], ◌∷◌, ◌++◌, if◌then◌else◌,
}
use joinanny.Base.Int.{pos}
use text.Mathlib.Text.{◌==◌ as str_eq}
use joinanny.Decimal.{
  Decimal, decimal_zero, new_from_int, is_zero, is_positive, is_lt, cmp, equal, abs, add, mul,
  quo_floor, floor_to_step,
}
use joinanny.Domain.{CloseIntent}
use joinanny.Binance.{Error, OrderResponse, PositionRisk, SymbolFilters, ExecutorConfig, Network}
use joinanny.Binance.Exec.{Result, ok, err, pure, raise, lift, ◌>>=◌}
use joinanny.Binance.Request.{Action, new_order, position_risk}
use joinanny.Binance.Filters.{of_exact, or_error, parse_number, symbol_filters}
use joinanny.Binance.Quantity.{client_order_id, parse_default}
use joinanny.Binance.Rollback.{reduce_params}
use joinanny.Binance.Opening.{mode}

-- The variables of the loop.
pub record CloseLoop : Type 0 where
  pub responses : List OrderResponse
  pub realized : Decimal
  pub exit_price : Decimal
  pub closed_symbol : String
  pub closed_side : String

abbrev pub share_of : Decimal → Decimal → Result Error Decimal
share_of amount percent =
    let hundred = new_from_int (pos 100) in
    if equal percent hundred
    then ok (abs amount)
    else of_exact (quo_floor (mul (abs amount) percent) hundred 16)

-- The quantity that a percentage of a position closes.
unfoldable pub close_quantity : Decimal → Decimal → SymbolFilters → Result Error Decimal
close_quantity amount percent filters = or_error (share_of amount percent) (λ share.
    or_error (of_exact (floor_to_step share filters.step_size)) (λ quantity.
      if is_zero quantity || is_lt (cmp quantity filters.min_qty)
      then err Error.below_min_qty
      else ok quantity))

abbrev pub add_if_read : Result Error Decimal → Decimal → Decimal
add_if_read (ok d) total = add total d
add_if_read (err e) total = total

abbrev pub last_read : Result Error Decimal → Decimal → Decimal
last_read (ok d) before = d
last_read (err e) before = before

abbrev pub last_positive : Result Error Decimal → Decimal → Decimal
last_positive (ok d) before = if is_positive d then d else before
last_positive (err e) before = before

-- What the loop knows before the order of a position, and after it.
unfoldable pub noted : PositionRisk → Decimal → CloseLoop → CloseLoop
noted row amount c = record c {
  realized = add_if_read (parse_default row.unrealized_profit) c.realized;
  exit_price = last_read (parse_default row.mark_price) c.exit_price;
  closed_symbol = row.symbol;
  closed_side = if is_lt (cmp amount decimal_zero) then "short" else "long";
}

unfoldable pub with_answer : OrderResponse → CloseLoop → CloseLoop
with_answer response c = record c {
  responses = c.responses ++ response ∷ [];
  exit_price = last_positive (parse_default response.avg_price) c.exit_price;
}

pub record Closed : Type 0 where
  pub mode : String
  pub closing : CloseLoop
  pub client_order_id : String

abbrev pub closed_of : ExecutorConfig → CloseLoop → List OrderResponse → Result Error Closed
closed_of cfg c [] = err Error.no_position
closed_of cfg c (first ∷ more) =
    ok (record { mode = mode cfg; closing = c; client_order_id = first.client_order_id })

abbrev pub nothing_closed : CloseLoop
nothing_closed = record {
  responses = [];
  realized = decimal_zero;
  exit_price = decimal_zero;
  closed_symbol = "";
  closed_side = "";
}

module _ (net : Network) (cfg : ExecutorConfig) where
  unfoldable pub close_rounded :
      String → PositionRisk → Decimal → CloseLoop → Decimal → Action net CloseLoop
  unfolding new_order noted with_answer
  close_rounded id row amount c quantity =
      new_order net (reduce_params row.symbol amount quantity (client_order_id id "close"))
      >>= λ response. pure (with_answer response (noted row amount c))

  unfoldable pub close_filtered :
      Decimal → String → PositionRisk → Decimal → CloseLoop → SymbolFilters → Action net CloseLoop
  unfolding close_quantity close_rounded
  close_filtered percent id row amount c filters =
      lift (close_quantity amount percent filters) >>= close_rounded id row amount c

  -- The loop's body behind the tests of the row.
  unfoldable pub close_amount :
      Decimal → String → PositionRisk → CloseLoop → Decimal → Action net CloseLoop
  unfolding symbol_filters close_filtered
  close_amount percent id row c amount = elim (is_zero amount) [
    | true ↦ pure c
    | false ↦ symbol_filters net cfg row.symbol >>= close_filtered percent id row amount c
  ]

  unfoldable pub close_reported :
      CloseIntent → String → CloseLoop → PositionRisk → Action net CloseLoop
  unfolding close_amount
  close_reported intent id c row =
      elim (not (str_eq intent.symbol "") && not (str_eq row.symbol intent.symbol)) [
        | true ↦ pure c
        | false ↦
            lift (parse_number row.position_amt) >>= close_amount intent.resolved_percent id row c
      ]

  unfoldable pub close_rows :
      CloseIntent → String → List PositionRisk → CloseLoop → Action net CloseLoop
  unfolding close_reported
  close_rows intent id [] c = pure c
  close_rows intent id (row ∷ rows) c = close_reported intent id c row >>= close_rows intent id rows

  unfoldable pub close_all : CloseIntent → String → List PositionRisk → Action net Closed
  unfolding close_rows
  close_all intent id rows =
      close_rows intent id rows nothing_closed >>= λ c. lift (closed_of cfg c c.responses)

  -- `executeClose`, of the confirmation's intent and id.
  unfoldable pub execute_close : Option CloseIntent → String → Action net Closed
  unfolding position_risk close_all
  execute_close none id = raise Error.incomplete_intent
  execute_close (some intent) id = position_risk net intent.symbol >>= close_all intent id
