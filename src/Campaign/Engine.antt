-- ===== src/Campaign/Engine.antt =====
-- internal/campaign/engine.go: the loop that asks the advisor, trades and stops by rule. What the
-- context, the signal source, the advisor and the trader answer in one turn of the loop is a
-- `Round`; a run goes over the rounds that the world has given so far.
pub mod Tally
pub mod Skips
use joinanny.Base.{
  ℕ, suc, ◌+◌, String, Bool, true, false, ◌&&◌, Option, none, some, List, [], ◌∷◌, if◌then◌else◌,
}
use joinanny.Base.Int.{ℤ, pos, ltb_ℤ, leb_ℤ}
use joinanny.Decimal.{Decimal, add}
use joinanny.Campaign.{Goal, State, Verdict, continue, evaluate}

-- signals.DecisionAction.
pub data DecisionAction : Type 0 where
  hold open_position close_position : DecisionAction
  other : String → DecisionAction

-- The answers in one turn: an error of the context, an error of the signal source, the advisor's
-- decision (`none` is its error) and the realized profit of the trade (`none` is its error).
pub record Round : Type 0 where
  pub context_error : Option String
  pub signal_error : Option String
  pub decision : Option DecisionAction
  pub trade : Option Decimal

pub record EngineConfig : Type 0 where
  pub goal : Goal
  pub max_consecutive_skips : ℤ

-- What `Run` returns, or where it stands when the rounds given so far are used up.
pub data RunResult : Type 0 where
  returned : State → Verdict → Option String → RunResult
  waiting : State → ℕ → RunResult

-- What a turn does: it returns, or it goes round with the new state and count of skips.
pub data Turn : Type 0 where
  leave : State → Verdict → Option String → Turn
  again : State → ℕ → Turn

-- `skipExhausted` with the count that it has just raised.
pub skip_exhausted : ℤ → ℕ → Bool
skip_exhausted limit skips = ltb_ℤ (pos 0) limit && leb_ℤ limit (pos skips)

pub skip : ℤ → State → ℕ → Turn
skip limit s skips =
    if skip_exhausted limit (suc skips) then leave s Verdict.continue none else again s (suc skips)

pub tally : State → Decimal → State
tally s pnl = record s {
  realized_pnl = add s.realized_pnl pnl;
  trades_closed = s.trades_closed + 1;
}

pub trade_turn : State → Option Decimal → Turn
trade_turn s none = again s 0
trade_turn s (some pnl) = again (tally s pnl) 0

pub decision_turn : ℤ → State → ℕ → Option Decimal → Option DecisionAction → Turn
decision_turn limit s skips trade none = skip limit s skips
decision_turn limit s skips trade (some DecisionAction.open_position) = trade_turn s trade
decision_turn limit s skips trade (some DecisionAction.hold) = skip limit s skips
decision_turn limit s skips trade (some DecisionAction.close_position) = skip limit s skips
decision_turn limit s skips trade (some (DecisionAction.other _)) = skip limit s skips

pub signal_turn : ℤ → State → ℕ → Round → Option String → Turn
signal_turn limit s skips r (some e) = leave s Verdict.continue (some e)
signal_turn limit s skips r none = decision_turn limit s skips r.trade r.decision

pub context_turn : ℤ → State → ℕ → Round → Option String → Turn
context_turn limit s skips r (some e) = leave s Verdict.continue (some e)
context_turn limit s skips r none = signal_turn limit s skips r r.signal_error

-- The body of the loop behind the test of the stop rules.
pub turn : ℤ → State → ℕ → Round → Turn
turn limit s skips r = context_turn limit s skips r r.context_error

abbrev pub is_continue : Verdict → Bool
is_continue Verdict.continue = true
is_continue _ = false

pub run_from : ℤ → List Round → State → ℕ → RunResult
run_from limit [] s skips =
    if is_continue (evaluate s) then waiting s skips else returned s (evaluate s) none
run_from limit (r ∷ rs) s skips = elim (is_continue (evaluate s)) [
  | false ↦ returned s (evaluate s) none
  | true ↦ elim (turn limit s skips r) [
    | leave s' v e ↦ returned s' v e
    | again s' skips' ↦ run_from limit rs s' skips'
  ]
]

-- `Run`.
unfoldable pub run : EngineConfig → List Round → RunResult
run cfg rs =
    run_from cfg.max_consecutive_skips rs
      (record {
        goal = cfg.goal;
        realized_pnl = record { value = none; scale = 0 };
        trades_closed = 0;
      })
      0
