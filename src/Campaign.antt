-- ===== src/Campaign.antt =====
-- internal/campaign: goals and stop rules (this file, campaign.go), the preview (Preview,
-- simulate.go) and the engine that trades until a rule fires (Engine, engine.go).
pub mod Rules
pub mod Preview
pub mod Engine
use joinanny.Base.{ℕ, ◌-◌, Bool, true, false, ◌&&◌, ltb, leb, if◌then◌else◌}
use joinanny.Base.Int.{ℤ, pos, ◌-ℤ◌, ltb_ℤ, leb_ℤ}
use joinanny.Decimal.{
  Decimal, Result, ok, err, decimal_zero, new_from_int, is_positive, is_lt, is_gt, cmp, sub, add,
  mul, neg, quo_floor,
}

pub record Goal : Type 0 where
  pub capital_usdt : Decimal
  pub target_profit_usdt : Decimal
  pub reward_per_trade_usdt : Decimal
  pub risk_per_trade_usdt : Decimal
  pub assumed_win_rate : ℤ
  pub max_trades : ℤ
  pub max_drawdown_usdt : Decimal

-- `Goal.ExpectedPerTrade`.
unfoldable pub expected_per_trade : Goal → Decimal
expected_per_trade g =
    let win = new_from_int g.assumed_win_rate in
    let lose = new_from_int (pos 100 -ℤ g.assumed_win_rate) in
    let gross = sub (mul g.reward_per_trade_usdt win) (mul g.risk_per_trade_usdt lose) in
    elim (quo_floor gross (new_from_int (pos 100)) 8) [ ok value ↦ value | err _ ↦ decimal_zero ]

pub data Verdict : Type 0 where
  continue stop_target_reached stop_max_drawdown stop_max_trades stop_strategy_rule : Verdict

pub record State : Type 0 where
  pub goal : Goal
  pub realized_pnl : Decimal
  pub trades_closed : ℕ

abbrev pub at_least : Decimal → Decimal → Bool
at_least a b = if is_lt (cmp a b) then false else true

abbrev pub at_most : Decimal → Decimal → Bool
at_most a b = if is_gt (cmp a b) then false else true

-- `Evaluate`.
unfoldable pub evaluate : State → Verdict
evaluate state =
    if at_least state.realized_pnl state.goal.target_profit_usdt
    then stop_target_reached
    else if is_positive state.goal.max_drawdown_usdt
        && at_most state.realized_pnl (neg state.goal.max_drawdown_usdt)
    then stop_max_drawdown
    else if ltb_ℤ (pos 0) state.goal.max_trades
        && leb_ℤ state.goal.max_trades (pos state.trades_closed)
    then stop_max_trades
    else continue
