-- ===== src/Binance.antt =====
-- internal/exchange/binance/executor.go: the data of the executor. The exchange, the clock and the
-- decoding of its answers are a `Network`: a call of the exchange acts on a world, which comes back.
pub mod Exec
pub mod Sending
pub mod Request
pub mod Filters
pub mod Quantity
pub mod Entry
pub mod Rollback
pub mod Opening
pub mod Closing
pub mod Stops
pub mod Realized
pub mod Executor
pub mod Provider
use joinanny.Base.{ℕ, String, Bool, Option, List}
use joinanny.Base.Int.{ℤ}
use joinanny.Base.Table.{Table}
use joinanny.Decimal.{Decimal, DecimalError}
use joinanny.Decimal.Text.{ParseError}

pub data Method : Type 0 where
  get post delete : Method

-- A request without what every signed one has: the time, the window and the signature.
pub record Call : Type 0 where
  pub method : Method
  pub path : String
  pub params : List (String × String)

pub record ApiError : Type 0 where
  pub status_code : ℕ
  pub code : ℤ
  pub message : String

-- The errors that the executor's functions return; the texts that they are wrapped in are left out. `out_of_rounds`
-- is no error of the source: the model's loop over the polls has used up its rounds.
pub data Error : Type 0 where
  no_keys no_base_url live_not_wired not_testnet : Error
  incomplete_intent unsupported_intent bad_size : Error
  below_min_qty below_min_notional no_filters no_position : Error
  bad_side no_symbol no_quantity : Error
  transport undecoded cancelled : Error
  out_of_rounds : Error
  api : ApiError → Error
  inexact : DecimalError → Error
  unread : ParseError → Error
  missing_filter : String → Error
  bad_leverage : String → Error

pub record OrderResponse : Type 0 where
  pub client_order_id : String
  pub order_id : ℤ
  pub symbol : String
  pub status : String
  pub kind : String
  pub executed_qty : String
  pub avg_price : String

pub record AlgoOrderResponse : Type 0 where
  pub client_algo_id : String
  pub algo_id : ℤ
  pub symbol : String
  pub algo_status : String
  pub kind : String

pub record AlgoOpenOrder : Type 0 where
  pub client_algo_id : String
  pub order_type : String
  pub symbol : String
  pub trigger_price : String

pub record PositionRisk : Type 0 where
  pub symbol : String
  pub position_amt : String
  pub entry_price : String
  pub mark_price : String
  pub unrealized_profit : String
  pub leverage : String
  pub margin_type : String
  pub position_side : String

pub record UserTradeRow : Type 0 where
  pub symbol : String
  pub side : String
  pub price : String
  pub qty : String
  pub realized_pnl : String
  pub commission : String
  pub time : ℤ

pub record ExchangeFilter : Type 0 where
  pub filter_type : String
  pub tick_size : String
  pub step_size : String
  pub min_qty : String
  pub notional : String

pub record SymbolInfo : Type 0 where
  pub symbol : String
  pub filters : List ExchangeFilter

pub record SymbolFilters : Type 0 where
  pub tick_size : Decimal
  pub step_size : Decimal
  pub min_qty : Decimal
  pub min_notional : Decimal

-- The fields of `ExecutorConfig` that the executor reads; times are in milliseconds.
pub record ExecutorConfig : Type 0 where
  pub api_key : String
  pub api_secret : String
  pub base_url : String
  pub testnet : Bool
  pub real_trading_enabled : Bool
  pub exchange_info_cache_ttl : ℕ
  pub maker_entry_timeout : ℕ

-- What lies outside: the clock, a request and its answer (the status and the body, or nothing), the
-- wait of 200 milliseconds (true where the caller's context ends first) and the decoding of bodies.
-- The first argument of `round_trip` is true where the context is not the caller's, the second is the
-- time that a signed request carries.
pub record Network : Type 1 where
  pub World : Type 0
  pub Body : Type 0
  pub now : World → ℕ
  pub round_trip : Bool → Option ℕ → Call → World → Option (ℕ × Body) × World
  pub wait : World → Bool × World
  pub error_fields : Body → ℤ × String
  pub body_text : Body → String
  pub decode_any : Body → Bool
  pub decode_order : Body → Option OrderResponse
  pub decode_algo : Body → Option AlgoOrderResponse
  pub decode_algo_orders : Body → Option (List AlgoOpenOrder)
  pub decode_positions : Body → Option (List PositionRisk)
  pub decode_exchange_info : Body → Option (List SymbolInfo)
  pub decode_trades : Body → Option (List UserTradeRow)

-- A call that has been made, and whether its answer came back without an error.
pub record Sent : Type 0 where
  pub call : Call
  pub accepted : Bool

-- The executor's state: the world, the calls made so far, the latest first, and the cache of the
-- symbols' filters with the time of its refresh (none before the first).
pub record ExecutorState (W : Type 0) : Type 0 where
  pub world : W
  pub calls : List Sent
  pub filters : Table SymbolFilters
  pub filters_refreshed : Option ℕ
