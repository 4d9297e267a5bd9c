-- ===== src/Binance/Entry.antt =====
-- internal/exchange/binance/executor.go: `makerFirstEntry`, a limit order that is polled for a while
-- and whose rest is bought at the market.
pub mod Rounds
pub mod Quiet
pub mod Market
use joinanny.Base.{
  ℕ, zero, suc, ◌+◌, ◌/◌, String, Bool, true, false, List, [], ◌∷◌, ltb, if◌then◌else◌,
}
use joinanny.Base.Int.{pos}
use joinanny.Base.Text.{trim_space}
use text.Mathlib.Text.{◌==◌ as str_eq}
use joinanny.Decimal.{Decimal, decimal_zero, is_positive, sub}
use joinanny.Decimal.Text.{parse, parsed, malformed, to_string}
use joinanny.Binance.{Error, OrderResponse, Network}
use joinanny.Binance.Exec.{Result, ok, err, pure, raise, attempt, ◌>>=◌, ◌>>◌}
use joinanny.Binance.Request.{Action, new_order, query_order, cancel_order_status, cancel_order}
use joinanny.Binance.Quantity.{client_order_id}

abbrev pub limit_params : String → String → Decimal → Decimal → String → List (String × String)
limit_params symbol side price quantity id =
    ("symbol", symbol)
    ∷ ("side", side)
    ∷ ("type", "LIMIT")
    ∷ ("timeInForce", "GTX")
    ∷ ("price", to_string price)
    ∷ ("quantity", to_string quantity)
    ∷ ("newClientOrderId", id)
    ∷ []

abbrev pub market_params : String → String → Decimal → String → List (String × String)
market_params symbol side quantity id =
    ("symbol", symbol)
    ∷ ("side", side)
    ∷ ("type", "MARKET")
    ∷ ("quantity", to_string quantity)
    ∷ ("newClientOrderId", id)
    ∷ []

-- `OrderResponse{}`: what the limit order is after a rejection.
abbrev pub no_response : OrderResponse
no_response = record {
  client_order_id = "";
  order_id = pos 0;
  symbol = "";
  status = "";
  kind = "";
  executed_qty = "";
  avg_price = "";
}

abbrev pub parsed_or_zero : String → Decimal
parsed_or_zero text = elim (parse text) [ parsed d ↦ d | malformed e ↦ decimal_zero ]

unfoldable pub executed_of : OrderResponse → Decimal
executed_of r =
    if str_eq (trim_space r.executed_qty) "" then decimal_zero else parsed_or_zero r.executed_qty

-- How the polls end without an error.
pub data Polled : Type 0 where
  filled unfilled : OrderResponse → Polled

module _ (net : Network) where
  open net use {World, now, wait}

  -- One wait of the `select`.
  unfoldable pub pause : Action net Bool
  pause s = let (ended, w) = wait s.world in (ok ended, record s { world = w })

  unfoldable pub time_now : Action net ℕ
  time_now s = (ok (now s.world), s)

  -- The `select`: the caller's context has ended, or the polls go on.
  unfoldable pub after_wait : Action net Polled → String → String → Bool → Action net Polled
  unfolding cancel_order
  after_wait again symbol id true =
      attempt (cancel_order net true symbol id) >> raise Error.cancelled
  after_wait again symbol id false = again

  unfoldable pub at_time :
      Action net Polled → String → String → ℕ → OrderResponse → ℕ → Action net Polled
  unfolding pause after_wait
  at_time again symbol id deadline status t = elim (ltb deadline t) [
    | true ↦ pure (Polled.unfilled status)
    | false ↦ pause >>= after_wait again symbol id
  ]

  unfoldable pub after_query :
      Action net Polled → String → String → ℕ → Result Error OrderResponse → Action net Polled
  unfolding cancel_order at_time time_now
  after_query again symbol id deadline (err e) =
      attempt (cancel_order net false symbol id) >> raise e
  after_query again symbol id deadline (ok status) = elim (str_eq status.status "FILLED") [
    | true ↦ pure (Polled.filled status)
    | false ↦ time_now >>= at_time again symbol id deadline status
  ]

  -- The polls until the deadline, at most as many as the fuel says.
  unfoldable pub poll : ℕ → String → String → ℕ → Action net Polled
  unfolding query_order after_query
  poll zero symbol id deadline = raise Error.out_of_rounds
  poll (suc fuel) symbol id deadline =
      attempt (query_order net symbol id)
      >>= after_query (poll fuel symbol id deadline) symbol id deadline

  -- The rest of the quantity at the market, where there is one.
  unfoldable pub market_rest :
      String → String → Decimal → String → OrderResponse → Action net OrderResponse
  unfolding new_order executed_of
  market_rest symbol side quantity confirmation_id limit =
      let remaining = sub quantity (executed_of limit) in
      elim (is_positive remaining) [
        | true ↦
            new_order net
              (market_params symbol side remaining (client_order_id confirmation_id "entrym"))
        | false ↦ pure limit
      ]

  -- The answer to the cancel counts where it tells a quantity, and else the last poll.
  abbrev pub final_status : OrderResponse → OrderResponse → OrderResponse
  final_status polled cancelled = if str_eq cancelled.executed_qty "" then polled else cancelled

  unfoldable pub after_polls :
      String → String → Decimal → String → Polled → Action net OrderResponse
  unfolding cancel_order_status market_rest
  after_polls symbol side quantity confirmation_id (Polled.filled status) = pure status
  after_polls symbol side quantity confirmation_id (Polled.unfilled status) =
      cancel_order_status net false symbol (client_order_id confirmation_id "entry")
      >>= λ cancelled.
          market_rest symbol side quantity confirmation_id (final_status status cancelled)

  -- Rounds of 200 milliseconds past the timeout.
  abbrev pub poll_fuel : ℕ → ℕ
  poll_fuel timeout = timeout / 200 + 2

  unfoldable pub rest_from : ℕ → String → String → Decimal → String → ℕ → Action net OrderResponse
  unfolding poll after_polls
  rest_from timeout symbol side quantity confirmation_id start =
      poll (poll_fuel timeout) symbol (client_order_id confirmation_id "entry") (start + timeout)
      >>= after_polls symbol side quantity confirmation_id

  -- What follows the answer to the limit order.
  unfoldable pub after_limit :
      ℕ → String → String → Decimal → String → Result Error OrderResponse → Action net OrderResponse
  unfolding rest_from market_rest time_now
  after_limit timeout symbol side quantity confirmation_id (ok limit) =
      time_now >>= rest_from timeout symbol side quantity confirmation_id
  after_limit timeout symbol side quantity confirmation_id (err (Error.api e)) =
      market_rest symbol side quantity confirmation_id no_response
  after_limit timeout symbol side quantity confirmation_id (err e) = raise e

  -- `makerFirstEntry`.
  unfoldable pub maker_first_entry :
      ℕ → String → String → Decimal → Decimal → String → Action net OrderResponse
  unfolding new_order after_limit
  maker_first_entry timeout symbol side price quantity confirmation_id =
      attempt (
        new_order net
          (limit_params symbol side price quantity (client_order_id confirmation_id "entry")))
      >>= after_limit timeout symbol side quantity confirmation_id
