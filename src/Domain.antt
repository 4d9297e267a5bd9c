-- ===== src/Domain.antt =====
-- internal/domain/intent.go and position.go: what the bot is asked to do, and an open position. The
-- string types of the source are enumerations here; `other` is any string that is no constant.
use joinanny.Base.{String, Bool, true, false, Option, List}
use joinanny.Base.Int.{ℤ}
use joinanny.Decimal.{Decimal}

pub data IntentType : Type 0 where
  unknown open_position close_position breakeven trail add_size status plan_status : IntentType
  other : String → IntentType

pub data Side : Type 0 where
  long short : Side
  other : String → Side

pub data SizeKind : Type 0 where
  unknown usdt qty : SizeKind
  other : String → SizeKind

pub record OrderSize : Type 0 where
  pub kind : SizeKind
  pub amount : Decimal

pub record OpenIntent : Type 0 where
  pub symbol : String
  pub side : Side
  pub leverage : ℤ
  pub entry : Decimal
  pub stop_loss : Decimal
  pub take_profits : List Decimal
  pub size : OrderSize
  pub plan_id : String
  pub strategy : String
  pub models : List String
  pub reason : String
  pub confidence : ℤ
  pub campaign_id : String

pub record CloseIntent : Type 0 where
  pub symbol : String
  pub all : Bool
  pub percent : Decimal
  pub has_percent : Bool
  pub resolved_percent : Decimal
  pub entry_confirmation_id : String

pub record BreakevenIntent : Type 0 where
  pub symbol : String

pub record TrailIntent : Type 0 where
  pub symbol : String
  pub callback_rate : Decimal

pub record AddIntent : Type 0 where
  pub symbol : String
  pub size : OrderSize

pub record PlanStatusIntent : Type 0 where
  pub plan_id : String

pub record Intent : Type 0 where
  pub kind : IntentType
  pub raw_text : String
  pub opening : Option OpenIntent
  pub closing : Option CloseIntent
  pub breakeven : Option BreakevenIntent
  pub trail : Option TrailIntent
  pub add : Option AddIntent
  pub plan_status : Option PlanStatusIntent

changes_exchange : IntentType → Bool
changes_exchange IntentType.open_position = true
changes_exchange IntentType.close_position = true
changes_exchange IntentType.breakeven = true
changes_exchange IntentType.trail = true
changes_exchange IntentType.add_size = true
changes_exchange _ = false

unfoldable pub is_exchange_changing : Intent → Bool
unfolding changes_exchange
is_exchange_changing i = changes_exchange i.kind

pub data PositionSide : Type 0 where
  long short : PositionSide
  other : String → PositionSide

pub record Position : Type 0 where
  pub symbol : String
  pub side : PositionSide
  pub amount : Decimal
  pub entry_price : Decimal
  pub mark_price : Decimal
  pub unrealized_profit : Decimal
  pub leverage : ℤ
  pub margin_type : String
