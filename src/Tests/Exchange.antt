-- ===== src/Tests/Exchange.antt =====
-- The executor of the exchange at a small exchange: a world of milliseconds, in which every call takes
-- one and the answers depend on the call's method and path only.
use joinanny.Base.{
  ℕ, ◌+◌, ◌≤◌, ◌≡◌, ◌⊎◌, inl, inr, refl, String, Bool, true, false, none, some, Option, List, [],
  ◌∷◌, arith, if◌then◌else◌, length,
}
use joinanny.Base.Int.{ℤ, pos}
use joinanny.Base.Text.{trim_space}
use joinanny.Base.Text.Case.{to_upper, to_lower}
use joinanny.Decimal.{Decimal}
use joinanny.Domain.{Side, SizeKind, OpenIntent, CloseIntent, PositionSide}
use joinanny.Orders.Store.{Confirmation}
use joinanny.Binance.{
  Method, Call, Error, OrderResponse, AlgoOrderResponse, AlgoOpenOrder, PositionRisk, UserTradeRow,
  ExchangeFilter, SymbolInfo, SymbolFilters, ExecutorConfig, Network, ExecutorState,
}
use joinanny.Binance.Exec.{ok, err}
use joinanny.Binance.Request.{order_call, named_order, new_order, user_trades}
use joinanny.Binance.Filters.Cached.{empty-AllUsable, StaysUsable, symbol_filters-StaysUsable}
use joinanny.Binance.Filters.{symbol_filters}
use joinanny.Binance.Quantity.{client_order_id}
use joinanny.Binance.Entry.{maker_first_entry, limit_params}
use joinanny.Binance.Entry.Rounds.{Clock, InRounds, maker_first_entry-InRounds}
use joinanny.Binance.Entry.Market.{OneMarket, maker_first_entry-OneMarket}
use joinanny.Binance.Opening.{OpenPlan, plan_open, execute_open}
use joinanny.Binance.Opening.Fits.{Fits, plan_open-Fits}
use joinanny.Binance.Opening.Outcome.{Ended, execute_open-Ended}
use joinanny.Binance.Stops.{current_stop, move_stop_loss}
use joinanny.Binance.Stops.NewFirst.{Moved, new_stop_call, cancel_call, move_stop_loss-Moved}
use joinanny.Binance.Realized.{RealizedTrade, realized_trade}
use joinanny.Binance.Realized.Covered.{Counted, realized_trade-Counted}
use joinanny.Binance.Executor.{execute, positions}
use joinanny.Binance.Executor.Refused.{real_trading_refused}

abbrev number : ℕ → Decimal
number n = record { value = some (pos n); scale = 0 }

abbrev order_answer : OrderResponse
order_answer = record {
  client_order_id = "tb_c1_entry";
  order_id = pos 7;
  symbol = "BTCUSDT";
  status = "FILLED";
  kind = "LIMIT";
  executed_qty = "2";
  avg_price = "100";
}

abbrev algo_answer : AlgoOrderResponse
algo_answer = record {
  client_algo_id = "tb_c1_sl";
  algo_id = pos 8;
  symbol = "BTCUSDT";
  algo_status = "NEW";
  kind = "STOP_MARKET";
}

abbrev stop_order : AlgoOpenOrder
stop_order = record {
  client_algo_id = "tb_c1_sl";
  order_type = "STOP_MARKET";
  symbol = "BTCUSDT";
  trigger_price = "90";
}

abbrev held : PositionRisk
held = record {
  symbol = "BTCUSDT";
  position_amt = "2";
  entry_price = "100";
  mark_price = "120";
  unrealized_profit = "40";
  leverage = "5";
  margin_type = "isolated";
  position_side = "BOTH";
}

abbrev exit_fill : String → ℤ → UserTradeRow
exit_fill qty time = record {
  symbol = "BTCUSDT";
  side = "SELL";
  price = "120";
  qty = qty;
  realized_pnl = "30";
  commission = "1";
  time = time;
}

abbrev filter : String → String → String → ExchangeFilter
filter kind step least = record {
  filter_type = kind;
  tick_size = step;
  step_size = step;
  min_qty = least;
  notional = "5";
}

abbrev btc : SymbolInfo
btc = record {
  symbol = "BTCUSDT";
  filters =
      filter "PRICE_FILTER" "1" "" ∷ filter "LOT_SIZE" "1" "1" ∷ filter "MIN_NOTIONAL" "" "" ∷ [];
}

-- Every answer has the status 200 and is read as what the call asks for.
abbrev pub small_exchange : Network
small_exchange = record {
  World = ℕ;
  Body = Unit {0};
  now = λ w. w;
  round_trip = λ detached at call w. (some (200, tt), w + 1);
  wait = λ w. (false, w + 200);
  error_fields = λ b. (pos 0, "");
  body_text = λ b. "";
  decode_any = λ b. true;
  decode_order = λ b. some order_answer;
  decode_algo = λ b. some algo_answer;
  decode_algo_orders = λ b. some (stop_order ∷ []);
  decode_positions = λ b. some (held ∷ []);
  decode_exchange_info = λ b. some (btc ∷ []);
  decode_trades = λ b. some (exit_fill "3" (pos 9) ∷ exit_fill "1" (pos 4) ∷ []);
}

abbrev test_config : ExecutorConfig
test_config = record {
  api_key = "key";
  api_secret = "secret";
  base_url = "https://testnet";
  testnet = true;
  real_trading_enabled = false;
  exchange_info_cache_ttl = 900000;
  maker_entry_timeout = 2000;
}

abbrev pub start : ExecutorState ℕ
start = record { world = 0; calls = []; filters = []; filters_refreshed = none }

abbrev opening : OpenIntent
opening = record {
  symbol = "BTCUSDT";
  side = Side.long;
  leverage = pos 5;
  entry = number 100;
  stop_loss = number 90;
  take_profits = number 130 ∷ [];
  size = record { kind = SizeKind.qty; amount = number 2 };
  plan_id = "";
  strategy = "";
  models = [];
  reason = "";
  confidence = pos 0;
  campaign_id = "";
}

abbrev closing : CloseIntent
closing = record {
  symbol = "BTCUSDT";
  all = false;
  percent = number 50;
  has_percent = true;
  resolved_percent = number 50;
  entry_confirmation_id = "";
}

execute_open-Ended_example :
    Ended small_exchange test_config opening
      (number 130)
      "c1"
      []
      (execute_open small_exchange test_config (some opening) "c1" start)
execute_open-Ended_example =
    execute_open-Ended small_exchange test_config opening (number 130) [] "c1" start refl

move_stop_loss-Moved_example :
    Moved []
      (λ stop. new_stop_call "BTCUSDT" PositionSide.long stop "tb_new")
      (cancel_call "tb_old")
      (move_stop_loss small_exchange test_config "BTCUSDT" PositionSide.long
        (number 110)
        "tb_old"
        "tb_new"
        start)
move_stop_loss-Moved_example =
    move_stop_loss-Moved small_exchange test_config "BTCUSDT" PositionSide.long (number 110)
      "tb_old" "tb_new" start

small_clock : Clock small_exchange
small_clock = record { steady = λ detached at call w. omega arith; waits = λ w h. omega arith }

maker_first_entry-InRounds_example :
    InRounds small_exchange
      (maker_first_entry small_exchange 2000 "BTCUSDT" "BUY" (number 100) (number 2) "c1" start)
maker_first_entry-InRounds_example =
    maker_first_entry-InRounds small_exchange 2000 "BTCUSDT" "BUY" (number 100) (number 2) "c1"
      start small_clock

maker_first_entry-OneMarket_example :
    OneMarket small_exchange 2000
      (order_call Method.post
        (limit_params "BTCUSDT" "BUY" (number 100) (number 2) (client_order_id "c1" "entry")))
      (order_call Method.delete (named_order "BTCUSDT" (client_order_id "c1" "entry")))
      "BTCUSDT"
      "BUY"
      (number 2)
      "c1"
      []
      (new_order small_exchange
        (limit_params "BTCUSDT" "BUY" (number 100) (number 2) (client_order_id "c1" "entry"))
        start)
      (maker_first_entry small_exchange 2000 "BTCUSDT" "BUY" (number 100) (number 2) "c1" start)
maker_first_entry-OneMarket_example =
    maker_first_entry-OneMarket small_exchange 2000 "BTCUSDT" "BUY" (number 100) (number 2) "c1"
      start

symbol_filters-StaysUsable_example :
    StaysUsable small_exchange test_config
      (symbol_filters small_exchange test_config "BTCUSDT" start)
symbol_filters-StaysUsable_example =
    symbol_filters-StaysUsable small_exchange test_config "BTCUSDT" start empty-AllUsable

abbrev whole_steps_of_one : SymbolFilters
whole_steps_of_one = record {
  tick_size = number 1;
  step_size = number 1;
  min_qty = number 1;
  min_notional = number 5;
}

abbrev open_plan : OpenPlan
open_plan = record {
  entry = number 100;
  stop_loss = number 90;
  take_profit = number 130;
  quantity = number 2;
}

open_planned_now : plan_open opening (number 130) whole_steps_of_one ≡ ok open_plan
unfolding plan_open joinanny.Decimal.floor_to_step joinanny.Decimal.floored joinanny.Decimal.sign
    joinanny.Decimal.normalize joinanny.Binance.Quantity.open_quantity
    joinanny.Binance.Quantity.validate_quantity_and_notional joinanny.Decimal.is_zero
    joinanny.Decimal.cmp joinanny.Decimal.mul joinanny.Decimal.is_positive joinanny.Decimal.align
    joinanny.Decimal.widen joinanny.Decimal.larger
open_planned_now = refl

plan_open-Fits_example : Fits opening (number 130) whole_steps_of_one open_plan
plan_open-Fits_example =
    plan_open-Fits opening (number 130) whole_steps_of_one open_plan open_planned_now

abbrev real_config : ExecutorConfig
real_config = record test_config { real_trading_enabled = true }

real_trading_refused_example :
    (e : Error) × ((c : Confirmation) → execute small_exchange real_config c start ≡ (err e, start))
    × (positions small_exchange real_config start ≡ (err e, start))
    × ((symbol side : String) (since : Option ℤ) (quantity : Decimal)
        → realized_trade small_exchange real_config symbol side since quantity start
          ≡ (err e, start))
    × ((symbol : String) → current_stop small_exchange real_config symbol start ≡ (err e, start))
    × ((symbol : String) (side : PositionSide) (stop : Decimal) (old new : String)
        → move_stop_loss small_exchange real_config symbol side stop old new start ≡ (err e, start))
real_trading_refused_example = real_trading_refused small_exchange real_config start (inl refl)

abbrev told : RealizedTrade
told = record {
  symbol = "BTCUSDT";
  side = "long";
  exit_price = number 120;
  realized_pnl = record { value = some (pos 386666666666666657); scale = 16 };
  closed_at = 9;
}

told_now :
    (realized_trade small_exchange test_config " btcusdt" "Long" none (number 2) start).0
    ≡ ok (some told)
unfolding realized_trade joinanny.Base.Text.trim_space joinanny.Base.Text.Case.to_upper
    joinanny.Base.Text.Case.to_lower joinanny.Base.Text.equal_fold
    joinanny.Binance.Quantity.close_order_side joinanny.Binance.Quantity.parse_default
    joinanny.Binance.Filters.parse_number joinanny.Decimal.is_positive joinanny.Decimal.Text.parse
    joinanny.Decimal.Text.parse_codes joinanny.Decimal.Text.parse_parts
    joinanny.Decimal.Text.parse_digits joinanny.Decimal.Text.parse_unsigned
    joinanny.Decimal.Text.split_point joinanny.Decimal.Text.all_digits joinanny.Decimal.normalize
    joinanny.Decimal.normalize_value joinanny.Decimal.strip joinanny.Decimal.sign
    joinanny.Decimal.cmp joinanny.Decimal.add joinanny.Decimal.sub joinanny.Decimal.mul
    joinanny.Decimal.abs joinanny.Decimal.quo_floor joinanny.Decimal.floored joinanny.Decimal.align
    joinanny.Decimal.align_normal joinanny.Decimal.common_scale joinanny.Decimal.larger
    joinanny.Binance.Quantity.default_decimal_string joinanny.Binance.Realized.average_price
told_now = refl

realized_trade-Counted_example :
    Counted
      (to_upper (trim_space " btcusdt"))
      (to_lower (trim_space "Long"))
      (number 2)
      (user_trades small_exchange (to_upper (trim_space " btcusdt")) none start).0
      told
realized_trade-Counted_example =
    realized_trade-Counted small_exchange test_config " btcusdt" "Long" none (number 2) start told
      told_now
