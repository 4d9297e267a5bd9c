-- ===== src/Campaign/Engine/Skips.antt =====
-- Runs of internal/campaign/engine.go in which no trade is closed.
use joinanny.Base.{
  ℕ, suc, ◌+◌, ◌≡◌, ◌≢◌, refl, ◌∙◌, inl, inr, String, true, false, Option, none, some, List, [],
  ◌∷◌, arith, length, All, Bool-cases,
}
use joinanny.Base.Int.{ℤ, pos, ◌≤ℤ◌, ◌<ℤ◌}
use joinanny.Campaign.{State, Verdict, continue, evaluate}
use joinanny.Campaign.Engine.{
  DecisionAction, open_position, Round, returned, waiting, leave, again, skip_exhausted, skip,
  trade_turn, decision_turn, signal_turn, context_turn, turn, run_from,
}

-- A round in which the advisor does not ask to open a position, or fails, with no error before it.
abbrev pub Declines : Round → Type 0
Declines r = (r.context_error ≡ none) × (r.signal_error ≡ none) × (r.decision ≢ some open_position)

-- A round in which the advisor asks to open a position and the trade fails.
abbrev pub FailsToTrade : Round → Type 0
FailsToTrade r =
    (r.context_error ≡ none)
    × (r.signal_error ≡ none)
    × (r.decision ≡ some open_position)
    × (r.trade ≡ none)

skip_exhausted-false :
    (limit : ℤ) (skips : ℕ)
    → pos skips <ℤ limit
    → skip_exhausted limit (suc skips) ≡ false
    → pos (suc skips) <ℤ limit
unfolding skip_exhausted
skip_exhausted-false limit skips under e = ground arith

decline_turn :
    (limit : ℤ) (s : State) (skips : ℕ) (r : Round)
    → Declines r
    → turn limit s skips r ≡ skip limit s skips
unfolding turn context_turn signal_turn
decline_turn limit s skips r (c, g, d) =
    rw (c, context_turn, g, signal_turn) (by_decision r.decision d)
  where
    by_decision :
        (o : Option DecisionAction)
        → o ≢ some open_position
        → decision_turn limit s skips r.trade o ≡ skip limit s skips
    by_decision none ne = unfold decision_turn in refl
    by_decision (some DecisionAction.open_position) ne = absurd (ne refl)
    by_decision (some DecisionAction.hold) ne = unfold decision_turn in refl
    by_decision (some DecisionAction.close_position) ne = unfold decision_turn in refl
    by_decision (some (DecisionAction.other _)) ne = unfold decision_turn in refl

fail_turn :
    (limit : ℤ) (s : State) (skips : ℕ) (r : Round)
    → FailsToTrade r
    → turn limit s skips r ≡ again s 0
unfolding turn context_turn signal_turn decision_turn trade_turn
fail_turn limit s skips r (c, g, d, t) =
    rw (c, context_turn, g, signal_turn, d, decision_turn, t, trade_turn) refl

module _ (limit : ℤ) (r : Round) (rs : List Round) (s : State) (skips : ℕ) where
  run_from-again :
      (s' : State) (skips' : ℕ)
      → evaluate s ≡ continue
      → turn limit s skips r ≡ again s' skips'
      → run_from limit (r ∷ rs) s skips ≡ run_from limit rs s' skips'
  unfolding run_from
  run_from-again s' skips' go e = rw (go, run_from, e)

  run_from-leave :
      (s' : State) (v : Verdict) (error : Option String)
      → evaluate s ≡ continue
      → turn limit s skips r ≡ leave s' v error
      → run_from limit (r ∷ rs) s skips ≡ returned s' v error
  unfolding run_from
  run_from-leave s' v error go e = rw (go, run_from, e)

-- The skip guard: from a state in which no rule fires, once the advisor has declined as often in a
-- row as a positive limit says, the run has returned with Continue, no error and the state unchanged.
pub run_from-Declines :
    (limit : ℤ) (rs : List Round) (s : State) (skips : ℕ)
    → All Declines rs
    → limit ≤ℤ pos (skips + length rs)
    → pos skips <ℤ limit
    → evaluate s ≡ continue
    → run_from limit rs s skips ≡ returned s continue none
run_from-Declines limit [] s skips a enough under go = absurd (omega arith)
run_from-Declines limit (r ∷ rs) s skips (d, ds) enough under go =
    elim (Bool-cases (skip_exhausted limit (suc skips))) [
      | inl last ↦
          run_from-leave limit r rs s skips s continue none go
            (decline_turn limit s skips r d ∙ skip-last last)
      | inr more ↦
          run_from-again limit r rs s skips s (suc skips) go
            (decline_turn limit s skips r d ∙ skip-more more)
          ∙ run_from-Declines limit rs s (suc skips) ds (omega arith) (still more) go
    ]
  where
    skip-last : skip_exhausted limit (suc skips) ≡ true → skip limit s skips ≡ leave s continue none
    skip-last e = unfold skip in rw e

    skip-more : skip_exhausted limit (suc skips) ≡ false → skip limit s skips ≡ again s (suc skips)
    skip-more e = unfold skip in rw e

    still : skip_exhausted limit (suc skips) ≡ false → pos (suc skips) <ℤ limit
    still e = skip_exhausted-false limit skips under e

-- The trade that always fails: from a state in which no rule fires the run goes on for any number of
-- rounds and whatever the limit on skips, with no trade closed.
pub run_from-FailsToTrade :
    (limit : ℤ) (r : Round) (rs : List Round) (s : State) (skips : ℕ)
    → All FailsToTrade (r ∷ rs)
    → evaluate s ≡ continue
    → run_from limit (r ∷ rs) s skips ≡ waiting s 0
run_from-FailsToTrade limit r [] s skips (f, _) go =
    run_from-again limit r [] s skips s 0 go (fail_turn limit s skips r f)
    ∙ unfold run_from in rw go
run_from-FailsToTrade limit r (r' ∷ rs) s skips (f, fs) go =
    run_from-again limit r (r' ∷ rs) s skips s 0 go (fail_turn limit s skips r f)
    ∙ run_from-FailsToTrade limit r' rs s 0 fs go
