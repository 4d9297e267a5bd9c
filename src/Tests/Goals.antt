-- ===== src/Tests/Goals.antt =====
-- Goals, previews and runs of internal/campaign at concrete values.
use joinanny.Base.{ℕ, ◌≤◌, ◌≡◌, ◌≢◌, ◌⊎◌, refl, none, some, List, [], ◌∷◌, arith, length}
use joinanny.Base.Int.{pos}
use joinanny.Decimal.{Decimal, add, neg, is_positive, sign, cmp}
use joinanny.Decimal.Scale.{coeff_at}
use joinanny.Decimal.Order.{Below}
use joinanny.Campaign.{Goal, State, continue, evaluate}
use joinanny.Campaign.Rules.{Decided, evaluate-Decided}
use joinanny.Campaign.Preview.{simulate, hard_cap}
use joinanny.Campaign.Preview.Loop.{simulate_end}
use joinanny.Campaign.Preview.Closed.{closed_pnl, simulate-pnl}
use joinanny.Campaign.Preview.Drawdown.{Bounded, simulate-Below}
use joinanny.Campaign.Engine.{DecisionAction, Round, EngineConfig, returned, waiting, run_from, run}
use joinanny.Campaign.Engine.Tally.{Sound, run-Sound}
use joinanny.Campaign.Engine.Skips.{Declines, run_from-Declines, run_from-FailsToTrade}

abbrev usdt : ℕ → Decimal
usdt n = record { value = some (pos n); scale = 0 }

-- Ten for each win, five for each loss, at a rate of 60 %.
abbrev goal : Goal
goal = record {
  capital_usdt = usdt 1000;
  target_profit_usdt = usdt 50;
  reward_per_trade_usdt = usdt 10;
  risk_per_trade_usdt = usdt 5;
  assumed_win_rate = pos 60;
  max_trades = pos 20;
  max_drawdown_usdt = usdt 30;
}

abbrev beginning : State
beginning = record { goal = goal; realized_pnl = usdt 0; trades_closed = 0 }

goal_open : evaluate beginning ≡ continue
unfolding evaluate is_positive cmp neg sign
goal_open = refl

evaluate-Decided_example : Decided beginning (evaluate beginning)
evaluate-Decided_example = evaluate-Decided beginning

simulate_end_example :
    let r = simulate goal in
    (r.state.trades_closed ≡ length r.outcomes)
    × (r.verdict ≡ evaluate r.state)
    × ((r.verdict ≢ continue) ⊎ (r.state.trades_closed ≡ hard_cap))
    × (r.state.trades_closed ≤ hard_cap)
simulate_end_example = simulate_end goal

simulate-pnl_example :
    let s = (simulate goal).state in coeff_at 0 s.realized_pnl ≡ closed_pnl goal 0 s.trades_closed
simulate-pnl_example = simulate-pnl goal 0 (omega arith) (omega arith)

goal-Bounded : Bounded 0 goal
unfolding sign is_positive
goal-Bounded = record {
  reward_fine = omega arith;
  risk_fine = omega arith;
  drawdown_fine = omega arith;
  reward_nonneg = refl;
  risk_nonneg = refl;
  drawdown_positive = refl;
}

simulate-Below_example :
    Below
      (neg (add goal.max_drawdown_usdt goal.risk_per_trade_usdt))
      (simulate goal).state.realized_pnl
simulate-Below_example = simulate-Below goal 0 goal-Bounded

abbrev answer_of : DecisionAction → Round
answer_of d = record {
  context_error = none;
  signal_error = none;
  decision = some d;
  trade = some (usdt 10);
}

abbrev holding : Round
holding = answer_of DecisionAction.hold

abbrev failing : Round
failing = record {
  context_error = none;
  signal_error = none;
  decision = some DecisionAction.open_position;
  trade = none;
}

abbrev config : EngineConfig
config = record { goal = goal; max_consecutive_skips = pos 3 }

abbrev rounds : List Round
rounds = answer_of DecisionAction.open_position ∷ holding ∷ failing ∷ holding ∷ []

run-Sound_example : Sound (pos 3) 0 rounds (run config rounds)
run-Sound_example = run-Sound config rounds

abbrev three_holds : List Round
three_holds = holding ∷ holding ∷ holding ∷ []

hold-Declines : Declines holding
hold-Declines = (refl, refl, λ e. cc)

run_from-Declines_example :
    run_from (pos 3) three_holds beginning 0 ≡ returned beginning continue none
run_from-Declines_example =
    run_from-Declines (pos 3) three_holds beginning 0
      (hold-Declines, (hold-Declines, (hold-Declines, tt))) (omega arith) (omega arith) goal_open

run_from-FailsToTrade_example :
    run_from (pos 3) (failing ∷ failing ∷ []) beginning 2 ≡ waiting beginning 0
run_from-FailsToTrade_example =
    run_from-FailsToTrade (pos 3) failing (failing ∷ []) beginning 2
      ((refl, refl, refl, refl), ((refl, refl, refl, refl), tt)) goal_open
