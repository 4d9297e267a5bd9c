-- ===== src/Campaign/Rules.antt =====
-- What the stop rules of internal/campaign/campaign.go decide.
use joinanny.Base.{◌≡◌, refl, ◌⊎◌, true, false, arith}
use joinanny.Base.Int.{pos, ◌≤ℤ◌, ◌<ℤ◌}
use joinanny.Decimal.{is_lt, is_gt, cmp, neg, is_positive}
use joinanny.Decimal.Order.{AtMost, Below}
use joinanny.Campaign.{State, Verdict, evaluate}

-- The rules by the order of the amounts: what holds of a state with the given verdict.
abbrev pub Decided : State → Verdict → Type 0
Decided s Verdict.stop_target_reached = is_lt (cmp s.realized_pnl s.goal.target_profit_usdt) ≡ false
Decided s Verdict.stop_max_drawdown =
    Below s.realized_pnl s.goal.target_profit_usdt
    × (is_positive s.goal.max_drawdown_usdt ≡ true)
    × AtMost s.realized_pnl (neg s.goal.max_drawdown_usdt)
Decided s Verdict.stop_max_trades =
    Below s.realized_pnl s.goal.target_profit_usdt
    × ((is_positive s.goal.max_drawdown_usdt ≡ false)
        ⊎ (is_gt (cmp s.realized_pnl (neg s.goal.max_drawdown_usdt)) ≡ true))
    × (pos 0 <ℤ s.goal.max_trades)
    × (s.goal.max_trades ≤ℤ pos s.trades_closed)
Decided s Verdict.stop_strategy_rule = ⊥
Decided s Verdict.continue =
    Below s.realized_pnl s.goal.target_profit_usdt
    × ((is_positive s.goal.max_drawdown_usdt ≡ false)
        ⊎ (is_gt (cmp s.realized_pnl (neg s.goal.max_drawdown_usdt)) ≡ true))
    × ((s.goal.max_trades ≤ℤ pos 0) ⊎ (pos s.trades_closed <ℤ s.goal.max_trades))

decided : (s : State) (v : Verdict) → evaluate s ≡ v → Decided s v
unfolding evaluate
decided s Verdict.stop_target_reached h = ground arith
decided s Verdict.stop_max_drawdown h = ground arith
decided s Verdict.stop_max_trades h = ground arith
decided s Verdict.stop_strategy_rule h = ground arith
decided s Verdict.continue h = ground arith

-- Each verdict is given only where its rule holds and the rules before it do not: the target, behind
-- it the drawdown, behind both the trade cap, and Continue where none of the three holds; `Evaluate`
-- never gives the verdict of a strategy rule.
pub evaluate-Decided : (s : State) → Decided s (evaluate s)
evaluate-Decided s = decided s (evaluate s) refl
