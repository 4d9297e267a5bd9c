-- ===== src/Campaign/Preview.antt =====
-- internal/campaign/simulate.go: the campaign loop over modelled outcomes.
pub mod Loop
pub mod Closed
pub mod Drawdown
use joinanny.Base.{
  ℕ, zero, suc, none, ◌+◌, ◌*◌, ◌/◌, Bool, true, false, ltb, if◌then◌else◌, List, [], ◌∷◌, ◌++◌,
}
use joinanny.Base.Int.{ℤ, pos, pos_part, leb_ℤ}
use joinanny.Decimal.{Decimal, decimal_zero, add, neg}
use joinanny.Campaign.{Goal, State, Verdict, continue, evaluate}

pub record TradeOutcome : Type 0 where
  pub index : ℕ
  pub win : Bool
  pub pnl : Decimal
  pub running_pnl : Decimal
  pub trades_so_far : ℕ

pub record SimulationResult : Type 0 where
  pub goal : Goal
  pub outcomes : List TradeOutcome
  pub state : State
  pub verdict : Verdict

abbrev pub hard_cap : ℕ
hard_cap = 1000

-- `winsByNow`, for a count n that is not negative.
unfoldable pub wins_by_now : ℕ → ℤ → ℕ
wins_by_now n rate =
    if leb_ℤ rate (pos 0) then 0 else if leb_ℤ (pos 100) rate then n else n * pos_part rate / 100

abbrev is_continue : Verdict → Bool
is_continue Verdict.continue = true
is_continue _ = false

-- The body of the loop for the trade of index i + 1.
pub simulate_trade : ℕ → State → State × TradeOutcome
simulate_trade i state =
    let rate = state.goal.assumed_win_rate in
    let win = ltb (wins_by_now i rate) (wins_by_now (i + 1) rate) in
    let pnl =
      if win then state.goal.reward_per_trade_usdt else neg state.goal.risk_per_trade_usdt in
    let next = record state {
      realized_pnl = add state.realized_pnl pnl;
      trades_closed = state.trades_closed + 1;
    } in
    (
      next,
      record {
        index = i + 1;
        win = win;
        pnl = pnl;
        running_pnl = next.realized_pnl;
        trades_so_far = next.trades_closed;
      },
    )

-- The loop with the rounds left, the index and the outcomes so far.
pub simulate_from : ℕ → ℕ → State → List TradeOutcome → SimulationResult
simulate_from zero i state outcomes = record {
  goal = state.goal;
  outcomes = outcomes;
  state = state;
  verdict = evaluate state;
}
simulate_from (suc rounds) i state outcomes =
    let (next, outcome) = simulate_trade i state in
    let rest = simulate_from rounds (i + 1) next (outcomes ++ outcome ∷ []) in
    if is_continue (evaluate state)
    then rest
    else record { goal = state.goal; outcomes = outcomes; state = state; verdict = evaluate state }

abbrev pub start : Goal → State
start g = record { goal = g; realized_pnl = record { value = none; scale = 0 }; trades_closed = 0 }

unfoldable pub simulate : Goal → SimulationResult
simulate g = simulate_from hard_cap 0 (start g) []
