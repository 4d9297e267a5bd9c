-- ===== src/Journal/Report.antt =====
-- internal/journal/report.go, and the filter of journal.go: the statistics over a set of trades. A
-- map of the source that is filled by key is a table here.
pub mod Counts
use joinanny.Base.{
  ℕ, ◌+◌, ◌*◌, String, Bool, true, false, not, ◌&&◌, ◌||◌, Option, none, some, List, [], ◌∷◌, ◌==◌,
  if◌then◌else◌,
}
use joinanny.Base.Int.{pos}
use joinanny.Base.Table.{Table, lookup, insert}
use joinanny.Base.Text.{equal_fold}
use text.Mathlib.Text.{◌==◌ as str_eq}
use joinanny.Decimal.{Decimal, ok, err, decimal_zero, new_from_int, add, quo_floor}
use joinanny.Journal.{Outcome, Trade, closed, is_opened}

pub record Filter : Type 0 where
  pub user_id : ℕ
  pub campaign_id : String
  pub symbol : String
  pub strategy : String
  pub mode : String
  pub closed_only : Bool
  pub open_only : Bool

-- `Filter.matches`; the source's tests return false one after the other. The symbol of a filter is
-- ASCII.
unfoldable pub matches : Filter → Trade → Bool
matches f t =
    (f.user_id == 0 || t.user_id == f.user_id)
    && (str_eq f.campaign_id "" || str_eq t.campaign_id f.campaign_id)
    && (str_eq f.symbol "" || equal_fold t.symbol f.symbol)
    && (str_eq f.strategy "" || str_eq t.strategy f.strategy)
    && (str_eq f.mode "" || str_eq t.mode f.mode)
    && (not f.closed_only || closed t.outcome)
    && (not f.open_only || is_opened t.outcome)

-- `MemoryRepository.List`.
unfoldable pub list_trades : Filter → Table Trade → List Trade
list_trades f [] = []
list_trades f ((_, t) ∷ trades) =
    let rest = list_trades f trades in if matches f t then t ∷ rest else rest

pub record GroupAcc : Type 0 where
  pub trades : ℕ
  pub wins : ℕ
  pub losses : ℕ
  pub pnl : Decimal

pub record GroupStat : Type 0 where
  pub trades : ℕ
  pub wins : ℕ
  pub losses : ℕ
  pub win_rate : Decimal
  pub total_pnl : Decimal

pub record Report : Type 0 where
  pub trades : ℕ
  pub wins : ℕ
  pub losses : ℕ
  pub breakeven : ℕ
  pub open_trades : ℕ
  pub win_rate : Decimal
  pub total_pnl : Decimal
  pub avg_win : Decimal
  pub avg_loss : Decimal
  pub expectancy : Decimal
  pub by_strategy : Table GroupStat
  pub by_model : Table GroupStat
  pub by_symbol : Table GroupStat

-- The variables of the loop of `aggregate`.
pub record Sums : Type 0 where
  pub trades : ℕ
  pub wins : ℕ
  pub losses : ℕ
  pub breakeven : ℕ
  pub open_trades : ℕ
  pub total : Decimal
  pub sum_wins : Decimal
  pub sum_losses : Decimal
  pub closed_trades : ℕ
  pub by_strategy : Table GroupAcc
  pub by_model : Table GroupAcc
  pub by_symbol : Table GroupAcc

-- The outcome as a win or a loss of a group.
unfoldable pub add_outcome : Outcome → GroupAcc → GroupAcc
add_outcome Outcome.win acc = record acc { wins = acc.wins + 1 }
add_outcome Outcome.loss acc = record acc { losses = acc.losses + 1 }
add_outcome _ acc = acc

unfoldable pub group_or_new : Option GroupAcc → GroupAcc
group_or_new none = record { trades = 0; wins = 0; losses = 0; pnl = decimal_zero }
group_or_new (some acc) = acc

unfoldable pub add_trade : Trade → GroupAcc → GroupAcc
add_trade trade acc =
    add_outcome trade.outcome
      (record acc { trades = acc.trades + 1; pnl = add acc.pnl trade.pnl_usdt })

-- `accumulate`.
unfoldable pub accumulate : String → Trade → Table GroupAcc → Table GroupAcc
accumulate key trade groups = insert key (add_trade trade (group_or_new (lookup key groups))) groups

unfoldable pub accumulate_all : List String → Trade → Table GroupAcc → Table GroupAcc
accumulate_all [] trade groups = groups
accumulate_all (model ∷ models) trade groups =
    accumulate_all models trade (accumulate model trade groups)

-- `strategyKey`.
unfoldable pub strategy_key : String → String
strategy_key strategy = if str_eq strategy "" then "(none)" else strategy

-- The `switch` of the loop's body.
unfoldable pub count_outcome : Outcome → Decimal → Sums → Sums
count_outcome Outcome.win pnl s = record s { wins = s.wins + 1; sum_wins = add s.sum_wins pnl }
count_outcome Outcome.loss pnl s = record s {
  losses = s.losses + 1;
  sum_losses = add s.sum_losses pnl;
}
count_outcome Outcome.breakeven pnl s = record s { breakeven = s.breakeven + 1 }
count_outcome _ pnl s = record s { open_trades = s.open_trades + 1 }

-- The rest of the body, for a closed trade.
unfoldable pub count_closed : Trade → Sums → Sums
count_closed t s = record s {
  total = add s.total t.pnl_usdt;
  closed_trades = s.closed_trades + 1;
  by_strategy = accumulate (strategy_key t.strategy) t s.by_strategy;
  by_symbol = accumulate t.symbol t s.by_symbol;
  by_model = accumulate_all t.models t s.by_model;
}

unfoldable pub count_trade : Trade → Sums → Sums
count_trade t s =
    let counted = count_outcome t.outcome t.pnl_usdt (record s { trades = s.trades + 1 }) in
    if closed t.outcome then count_closed t counted else counted

unfoldable pub count_all : List Trade → Sums → Sums
count_all [] s = s
count_all (t ∷ ts) s = count_all ts (count_trade t s)

abbrev pub no_sums : Sums
no_sums = record {
  trades = 0;
  wins = 0;
  losses = 0;
  breakeven = 0;
  open_trades = 0;
  total = decimal_zero;
  sum_wins = decimal_zero;
  sum_losses = decimal_zero;
  closed_trades = 0;
  by_strategy = [];
  by_model = [];
  by_symbol = [];
}

-- `pct`.
unfoldable pub pct : ℕ → ℕ → Decimal
pct numerator denominator =
    if denominator == 0
    then decimal_zero
    else elim (quo_floor (new_from_int (pos (numerator * 100))) (new_from_int (pos denominator))
        2) [ ok value ↦ value | err _ ↦ decimal_zero ]

-- `div`.
unfoldable pub div : Decimal → ℕ → Decimal
div sum count =
    if count == 0 then decimal_zero else elim (quo_floor sum (new_from_int (pos count)) 8) [
      | ok value ↦ value
      | err _ ↦ decimal_zero
    ]

abbrev pub group_stat : GroupAcc → GroupStat
group_stat acc = record {
  trades = acc.trades;
  wins = acc.wins;
  losses = acc.losses;
  win_rate = pct acc.wins (acc.wins + acc.losses);
  total_pnl = acc.pnl;
}

-- `finalize`.
unfoldable pub finalize : Table GroupAcc → Table GroupStat
finalize [] = []
finalize ((key, acc) ∷ groups) = (key, group_stat acc) ∷ finalize groups

-- The end of `aggregate`.
abbrev pub report_of : Sums → Report
report_of s = record {
  trades = s.trades;
  wins = s.wins;
  losses = s.losses;
  breakeven = s.breakeven;
  open_trades = s.open_trades;
  win_rate = pct s.wins (s.wins + s.losses);
  total_pnl = s.total;
  avg_win = div s.sum_wins s.wins;
  avg_loss = div s.sum_losses s.losses;
  expectancy = div s.total s.closed_trades;
  by_strategy = finalize s.by_strategy;
  by_model = finalize s.by_model;
  by_symbol = finalize s.by_symbol;
}

-- `aggregate`.
unfoldable pub aggregate : List Trade → Report
aggregate trades = report_of (count_all trades no_sums)
