-- ===== src/Tests/Bot.antt =====
-- Stops, confirmations and the journal at concrete values.
pub mod Orders
use text.Mathlib.Text.{◌==◌ as str_eq}
use text.Mathlib.TextEquality.{eq_iff}
use joinanny.Base.{
  ℕ, ◌+◌, ◌≤◌, ◌≡◌, ◌≢◌, ◌⊎◌, inl, inr, refl, ap, subst, String, Bool, true, false, none, some,
  Option, List, [], ◌∷◌, arith, All, Bool-cases,
}
use joinanny.Base.Int.{pos}
use joinanny.Base.Table.{Table, lookup, insert, lookup-insert_self, lookup-insert_ne}
use joinanny.Decimal.{Decimal, sign, is_lt, floor_to_step}
use joinanny.Binance.{Error}
use joinanny.Binance.Exec.{ok, err, Result-cases}
use joinanny.Binance.Filters.{of_exact}
use joinanny.Binance.Quantity.Rounding.{Rounded, floor_to_step-Rounded}
use joinanny.Domain.{PositionSide, Position}
use joinanny.Monitor.Trailing.{TrailPolicy, percent_of, compute_stop}
use joinanny.Monitor.Trailing.Ratchet.{Trails, compute_stop-Trails}
use joinanny.Monitor.Tick.{StopState, StopRead, Exchange, Runner, tick}
use joinanny.Monitor.Tick.OneWay.{OnTick, MovesOnly, LongIn, Higher, tick-Higher}
use joinanny.Journal.{close_row, Outcome, Trade, CloseUpdate}
use joinanny.Journal.Report.Counts.{Figures, aggregate_counts}
use joinanny.Base.{if◌then◌else◌}
use joinanny.Journal.Once.{Call, record_call, close_call, times_closed, times_closed-le}

abbrev amount : ℕ → Decimal
amount n = record { value = some (pos n); scale = 0 }

-- Active from 5 % of profit, 2 % behind the mark.
abbrev policy : TrailPolicy
policy = record { activate_pct = amount 5; trail_gap_pct = amount 2 }

compute_stop-Trails_example :
    Trails PositionSide.long
      (amount 100)
      (amount 90)
      (amount 120)
      (percent_of (amount 100) policy.activate_pct)
      (compute_stop PositionSide.long (amount 100) (amount 90) (amount 120) policy)
unfolding sign
compute_stop-Trails_example =
    compute_stop-Trails PositionSide.long (amount 100) (amount 90) (amount 120) policy refl

abbrev long_btc : Position
long_btc = record {
  symbol = "BTC";
  side = PositionSide.long;
  amount = amount 1;
  entry_price = amount 100;
  mark_price = amount 120;
  unrealized_profit = amount 20;
  leverage = pos 5;
  margin_type = "isolated";
}

-- A stop at a price that is rounded down to a whole one.
abbrev WholeStop : Type 0
WholeStop = (stop : StopState) × OnTick (amount 1) stop.price

abbrev stop_read : Option WholeStop → StopRead
stop_read none = StopRead.no_stop
stop_read (some (stop, whole)) = StopRead.found stop

-- The price rounded down to a whole one, or an error.
abbrev Floor : Decimal → Type 0
Floor price =
    ((r : Decimal) × (of_exact (floor_to_step price (amount 1)) ≡ ok r))
    ⊎ ((e : Error) × (of_exact (floor_to_step price (amount 1)) ≡ err e))

abbrev moved : Table WholeStop → String → (price : Decimal) → String → Floor price → Table WholeStop
moved w s price new (inl (r, e)) =
    insert s
      (
        record { price = r; client_algo_id = new },
        (price, floor_to_step-Rounded price (amount 1) r e),
      )
      w
moved w s price new (inr failed) = w

-- An exchange that keeps one stop for each symbol and rounds prices down to whole ones; it refuses
-- those that it cannot round.
abbrev table_exchange : Exchange
table_exchange = record {
  World = Table WholeStop;
  positions = λ w. some (long_btc ∷ []);
  current_stop = λ w s. stop_read (lookup s w);
  move_stop_loss = λ w s side price old new.
      (moved w s price new (Result-cases (of_exact (floor_to_step price (amount 1)))), true);
}

abbrev runner : Runner
runner = record { policy = policy; new_id = λ s n. s; seq = 0 }

whole_90 : of_exact (floor_to_step (amount 90) (amount 1)) ≡ ok (amount 90)
unfolding floor_to_step joinanny.Decimal.floored sign joinanny.Decimal.normalize
    joinanny.Decimal.larger joinanny.Decimal.widen joinanny.Base.Int.◌*ℤ◌
whole_90 = refl

abbrev stop_90 : WholeStop
stop_90 = (
  record { price = amount 90; client_algo_id = "x" },
  (amount 90, floor_to_step-Rounded (amount 90) (amount 1) (amount 90) whole_90),
)

abbrev stops : Table WholeStop
stops = ("BTC", stop_90) ∷ []

differ_false : (s t : String) → s ≢ t → str_eq s t ≡ false
differ_false s t n = elim (Bool-cases (str_eq s t)) [
  | inl same ↦ absurd (n ((eq_iff s t).0 same))
  | inr differ ↦ differ
]

stop_read-OnTick :
    (o : Option WholeStop) (stop : StopState)
    → stop_read o ≡ StopRead.found stop
    → OnTick (amount 1) stop.price
stop_read-OnTick none stop h = cc h
stop_read-OnTick (some (own, whole)) stop h =
    let same : own ≡ stop = cc in subst (λ u. OnTick (amount 1) u.price) same whole

moved-elsewhere :
    (w : Table WholeStop) (s t : String) (price : Decimal) (new : String) (f : Floor price)
    → str_eq s t ≡ false
    → lookup t (moved w s price new f) ≡ lookup t w
moved-elsewhere w s t price new (inl (r, e)) n = lookup-insert_ne s t _ w n
moved-elsewhere w s t price new (inr failed) n = refl

moved-here :
    (w : Table WholeStop) (s : String) (price : Decimal) (new : String) (f : Floor price)
    → (stop_read (lookup s (moved w s price new f)) ≡ stop_read (lookup s w))
      ⊎ ((stop : StopState) × (stop_read (lookup s (moved w s price new f)) ≡ StopRead.found stop)
          × Rounded price (amount 1) stop.price)
moved-here w s price new (inl (r, e)) = inr (
  record { price = r; client_algo_id = new },
  ap stop_read (lookup-insert_self s _ w),
  floor_to_step-Rounded price (amount 1) r e,
)
moved-here w s price new (inr failed) = inl refl

table_exchange-MovesOnly : MovesOnly table_exchange
table_exchange-MovesOnly = record {
  tick_size = λ s. amount 1;
  on_tick = λ w s stop h. stop_read-OnTick (lookup s w) stop h;
  elsewhere = λ w s t side price old new n. ap stop_read (
      moved-elsewhere w s t price new (Result-cases (of_exact (floor_to_step price (amount 1))))
        (differ_false s t n));
  here = λ w s side price old new.
      moved-here w s price new (Result-cases (of_exact (floor_to_step price (amount 1))));
}

tick-Higher_example :
    Higher
      (table_exchange.current_stop stops "BTC")
      (table_exchange.current_stop (tick table_exchange runner stops).0.1 "BTC")
unfolding sign
tick-Higher_example =
    tick-Higher table_exchange "BTC" runner stops (long_btc ∷ []) table_exchange-MovesOnly refl
      (inr (refl, refl), tt)

abbrev open_row : Trade
open_row = record {
  id = "t";
  user_id = 7;
  campaign_id = "";
  confirmation_id = "t";
  symbol = "BTC";
  side = "long";
  strategy = "";
  models = [];
  reason = "";
  confidence = pos 0;
  leverage = pos 5;
  mode = "live";
  entry = amount 100;
  exit = amount 0;
  stop_loss = amount 90;
  take_profit = amount 150;
  size_usdt = amount 10;
  quantity = amount 1;
  pnl_usdt = amount 0;
  outcome = Outcome.opened;
  opened_at = 5;
  closed_at = 0;
}

abbrev win : CloseUpdate
win = record {
  exit = amount 150;
  pnl_usdt = amount 50;
  outcome = Outcome.win;
  closed_at = 9;
  mode = "live";
}

-- The open row comes once more between the two closes.
abbrev journal_calls : List Call
journal_calls =
    record_call open_row ∷ close_call "t" win 9 ∷ record_call open_row ∷ close_call "t" win 12 ∷ []

times_closed-le_example : times_closed "t" journal_calls [] ≤ 1
times_closed-le_example = times_closed-le "t" journal_calls []

aggregate_counts_example : Figures (open_row ∷ close_row open_row win ∷ [])
aggregate_counts_example = aggregate_counts (open_row ∷ close_row open_row win ∷ [])
