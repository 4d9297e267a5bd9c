-- ===== src/Binance/Closing/Reducing.antt =====
-- `executeClose` of internal/exchange/binance/executor.go: what it asks of the exchange.
use mathlib.Core.List.{Memᴰ}
use text.Mathlib.Text.{◌==◌ as str_eq}
use joinanny.Base.{String, ◌≡◌, ◌⊎◌, false, List}
use joinanny.Decimal.{Decimal, is_zero}
use joinanny.Decimal.Order.{AtMost}
use joinanny.Domain.{CloseIntent}
use joinanny.Binance.{
  Method, Sent, Error, PositionRisk, SymbolFilters, ExecutorConfig, Network, ExecutorState,
}
use joinanny.Binance.Exec.{Result, ok}
use joinanny.Binance.Request.{order_call, position_call, position_risk}
use joinanny.Binance.Filters.{symbol_filters, exchange_info_call, parse_number}
use joinanny.Binance.Quantity.{client_order_id}
use joinanny.Binance.Quantity.Rounding.{Rounded}
use joinanny.Binance.Rollback.{reduce_params}
use joinanny.Binance.Closing.{share_of}
use joinanny.Binance.Sending.{Reached, Grown}

-- A reduce-only market order for a row of the answer: the row is the symbol's that the intent names,
-- where it names one, its amount is not 0, and the quantity is the intent's share of the amount,
-- rounded down to the step size that `symbolFilters` gave for the row's symbol in a state of the call,
-- and neither 0 nor below the least quantity.
pub record CloseOrder (net : Network) (cfg : ExecutorConfig) (intent : CloseIntent) (id : String)
    (start : ExecutorState net.World) (c : Sent) : Type 0 where
  pub rows : List PositionRisk
  pub answered : (position_risk net intent.symbol start).0 ≡ ok rows
  pub row : PositionRisk
  pub reported : Memᴰ row rows
  pub named : (intent.symbol ≡ "") ⊎ (row.symbol ≡ intent.symbol)
  pub amount : Decimal
  pub reads : parse_number row.position_amt ≡ ok amount
  pub holds : is_zero amount ≡ false
  pub share : Decimal
  pub shared : share_of amount intent.resolved_percent ≡ ok share
  pub filters : SymbolFilters
  pub asked_at : ExecutorState net.World
  pub reached : Reached net cfg start asked_at
  pub filtered : (symbol_filters net cfg row.symbol asked_at).0 ≡ ok filters
  pub quantity : Decimal
  pub rounded : Rounded share filters.step_size quantity
  pub some_quantity : is_zero quantity ≡ false
  pub enough : AtMost filters.min_qty quantity
  pub call :
      c.call
      ≡ order_call Method.post
          (reduce_params row.symbol amount quantity (client_order_id id "close"))

-- A question, or such an order.
abbrev pub Reduces :
    (net : Network)
    → ExecutorConfig
    → CloseIntent
    → String
    → ExecutorState net.World
    → Sent
    → Type 0
Reduces net cfg intent id start c =
    (c.call ≡ exchange_info_call)
    ⊎ ((c.call ≡ position_call intent.symbol) ⊎ CloseOrder net cfg intent id start c)

module _ (net : Network) (cfg : ExecutorConfig) (intent : CloseIntent) (id : String)
    (start : ExecutorState net.World) where
  -- Only such calls are added, and the state is one that they lead to.
  abbrev Added : List Sent → ExecutorState net.World → Type 0
  Added before t = Grown (Reduces net cfg intent id start) before t.calls × Reached net cfg start t

  abbrev Only : List Sent → {A : Type 0} → Result Error A × ExecutorState net.World → Type 0
  Only before r = Added before r.1
