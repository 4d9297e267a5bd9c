-- ===== src/Campaign/Engine/Tally.antt =====
-- How a run of internal/campaign/engine.go ends, and what it never exceeds.
use joinanny.Base.{
  ℕ, suc, ◌≡◌, ◌≢◌, refl, sym, ap, ◌∙◌, subst, ◌⊎◌, inl, inr, String, true, false, Option, none,
  some, List, [], ◌∷◌, ◌+◌, ◌++◌, All, length, arith, Bool-cases,
}
use joinanny.Base.Int.{ℤ, pos, ◌≤ℤ◌, ◌<ℤ◌}
use joinanny.Decimal.{Decimal}
use joinanny.Campaign.{State, Verdict, continue, evaluate}
use joinanny.Campaign.Rules.{Decided, evaluate-Decided}
use joinanny.Campaign.Engine.Skips.{Declines}
use joinanny.Campaign.Engine.{
  DecisionAction, open_position, Round, EngineConfig, RunResult, returned, waiting, Turn, leave,
  again, skip_exhausted, skip, tally, trade_turn, decision_turn, signal_turn, context_turn, turn,
  is_continue, run_from, run,
}

-- The trade cap is not passed, where there is one.
abbrev pub Capped : State → Type 0
Capped s = (s.goal.max_trades ≤ℤ pos 0) ⊎ (pos s.trades_closed ≤ℤ s.goal.max_trades)

-- The count of skips is below its limit, where there is one.
abbrev pub Patient : ℤ → ℕ → Type 0
Patient limit skips = (limit ≤ℤ pos 0) ⊎ (pos skips <ℤ limit)

-- Somewhere in the rounds declines follow on each other until there are as many as a positive limit
-- says, those counted before the first round included.
abbrev pub Exhausts : ℤ → ℕ → List Round → Type 0
Exhausts limit skips rounds =
    (pos 0 <ℤ limit)
    × ((front : List Round) × (declined : List Round) × (back : List Round) × (rounds
          ≡ front ++ declined ++ back)
        × All Declines declined
        × ((limit ≤ℤ pos (length declined))
            ⊎ ((front ≡ []) × (limit ≤ℤ pos (skips + length declined)))))

-- A run from a state and a count of skips, over rounds, ends by a rule that holds of its last state;
-- or with Continue, by an error or because the limit on skips is reached; or it waits for more rounds,
-- with no rule fired.
abbrev pub Sound : ℤ → ℕ → List Round → RunResult → Type 0
Sound limit skips rounds (returned s v e) =
    Capped s
    × (((v ≢ continue) × (v ≡ evaluate s) × (e ≡ none))
        ⊎ ((v ≡ continue) × (evaluate s ≡ continue) × ((e ≢ none) ⊎ Exhausts limit skips rounds)))
Sound limit skips rounds (waiting s skips') =
    Capped s × (evaluate s ≡ continue) × Patient limit skips'

-- The next count of skips: one more behind a decline, and else none.
abbrev Counts : Round → ℕ → ℕ → Type 0
Counts r skips skips' = (Declines r × (skips' ≡ suc skips)) ⊎ (skips' ≡ 0)

abbrev TurnSound : ℤ → State → ℕ → Round → Turn → Type 0
TurnSound limit s skips r (leave s' v e) =
    (s' ≡ s)
    × (v ≡ continue)
    × ((e ≢ none) ⊎ (Declines r × (pos 0 <ℤ limit) × (limit ≤ℤ pos (suc skips))))
TurnSound limit s skips r (again s' skips') =
    Capped s' × Patient limit skips' × Counts r skips skips'

-- The limit is reached later: the round in front is a decline that counts, or one that does not.
Exhausts-cons :
    (limit : ℤ) (skips skips' : ℕ) (r : Round) (rs : List Round)
    → Counts r skips skips'
    → Exhausts limit skips' rs
    → Exhausts limit skips (r ∷ rs)
Exhausts-cons limit skips skips' r rs c (p, (front, declined, back, e, all, inl long)) =
    (p, (r ∷ front, declined, back, ap (λ l. r ∷ l) e, all, inl long))
Exhausts-cons limit skips skips' r rs (inl (d, k))
      (p, (front, declined, back, e, all, inr (first, long))) =
    (
      p,
      (
        [],
        r ∷ declined,
        back,
        ap (λ l. r ∷ l) (e ∙ ap (λ l. l ++ declined ++ back) first),
        (d, all),
        inr (refl, omega arith),
      ),
    )
Exhausts-cons limit skips skips' r rs (inr k)
      (p, (front, declined, back, e, all, inr (first, long))) =
    (p, (r ∷ front, declined, back, ap (λ l. r ∷ l) e, all, inl (omega arith)))

skip-TurnSound :
    (limit : ℤ) (s : State) (skips : ℕ) (r : Round)
    → Capped s
    → Declines r
    → TurnSound limit s skips r (skip limit s skips)
unfolding skip skip_exhausted
skip-TurnSound limit s skips r h d = elim (Bool-cases (skip_exhausted limit (suc skips))) [
  | inl enough ↦ rw enough (refl, refl, inr (d, ground arith, ground arith))
  | inr more ↦ rw more (h, ground arith, inl (d, refl))
]

-- Where no rule has fired, one more trade stays within the cap.
tally-Capped : (s : State) (pnl : Decimal) → evaluate s ≡ continue → Capped (tally s pnl)
unfolding tally
tally-Capped s pnl e =
    let (_, _, room) = subst (Decided s) e (evaluate-Decided s) in
    elim room [ inl open_end ↦ inl open_end | inr below ↦ inr (omega arith) ]

-- No skip is counted yet.
Patient-start : (limit : ℤ) → Patient limit 0
Patient-start limit = ground arith

module _ (limit : ℤ) (s : State) (skips : ℕ) (r : Round) (go : evaluate s ≡ continue)
    (h : Capped s) where
  trade_turn-TurnSound : (trade : Option Decimal) → TurnSound limit s skips r (trade_turn s trade)
  unfolding trade_turn
  trade_turn-TurnSound none = (h, Patient-start limit, inr refl)
  trade_turn-TurnSound (some pnl) = (tally-Capped s pnl go, Patient-start limit, inr refl)

  decision_turn-TurnSound :
      (trade : Option Decimal) (d : Option DecisionAction)
      → (d ≢ some open_position → Declines r)
      → TurnSound limit s skips r (decision_turn limit s skips trade d)
  unfolding decision_turn
  decision_turn-TurnSound trade none k = skip-TurnSound limit s skips r h (k (λ e. cc e))
  decision_turn-TurnSound trade (some DecisionAction.open_position) k = trade_turn-TurnSound trade
  decision_turn-TurnSound trade (some DecisionAction.hold) k =
      skip-TurnSound limit s skips r h (k (λ e. cc e))
  decision_turn-TurnSound trade (some DecisionAction.close_position) k =
      skip-TurnSound limit s skips r h (k (λ e. cc e))
  decision_turn-TurnSound trade (some (DecisionAction.other _)) k =
      skip-TurnSound limit s skips r h (k (λ e. cc e))

  signal_turn-TurnSound :
      (e : Option String)
      → r.context_error ≡ none
      → r.signal_error ≡ e
      → TurnSound limit s skips r (signal_turn limit s skips r e)
  unfolding signal_turn
  signal_turn-TurnSound (some e) c k = (refl, refl, inl (λ q. cc))
  signal_turn-TurnSound none c k = decision_turn-TurnSound r.trade r.decision (λ d. (c, k, d))

  context_turn-TurnSound :
      (e : Option String)
      → r.context_error ≡ e
      → TurnSound limit s skips r (context_turn limit s skips r e)
  unfolding context_turn
  context_turn-TurnSound (some e) k = (refl, refl, inl (λ q. cc))
  context_turn-TurnSound none k = signal_turn-TurnSound r.signal_error k refl

  turn-TurnSound : TurnSound limit s skips r (turn limit s skips r)
  unfolding turn
  turn-TurnSound = context_turn-TurnSound r.context_error refl

is_continue-true : (v : Verdict) → is_continue v ≡ true → v ≡ continue
is_continue-true v h = ground arith

is_continue-false : (v : Verdict) → is_continue v ≡ false → v ≢ continue
is_continue-false v h = ground arith

-- A sound rest of a run, behind a turn that goes round.
Sound-cons :
    (limit : ℤ) (skips skips' : ℕ) (r : Round) (rs : List Round) (result : RunResult)
    → Counts r skips skips'
    → Sound limit skips' rs result
    → Sound limit skips (r ∷ rs) result
Sound-cons limit skips skips' r rs (waiting s n) c h = h
Sound-cons limit skips skips' r rs (returned s v e) c (capped, inl rule) = (capped, inl rule)
Sound-cons limit skips skips' r rs (returned s v e) c (capped, inr (cont, none_fired, inl failed)) =
    (capped, inr (cont, none_fired, inl failed))
Sound-cons limit skips skips' r rs (returned s v e) c (capped, inr (cont, none_fired, inr more)) =
    (capped, inr (cont, none_fired, inr (Exhausts-cons limit skips skips' r rs c more)))

run_from-Sound :
    (limit : ℤ) (rs : List Round) (s : State) (skips : ℕ)
    → Capped s
    → Patient limit skips
    → Sound limit skips rs (run_from limit rs s skips)
unfolding run_from
run_from-Sound limit [] s skips h p = elim (Bool-cases (is_continue (evaluate s))) [
  | inl go ↦ rw go (h, is_continue-true _ go, p)
  | inr stop ↦ rw stop (h, inl (is_continue-false _ stop, refl, refl))
]
run_from-Sound limit (r ∷ rs) s skips h p = elim (Bool-cases (is_continue (evaluate s))) [
  | inr stop ↦ rw (stop, run_from) (h, inl (is_continue-false _ stop, refl, refl))
  | inl go ↦
      rw (go, run_from)
        (after (turn limit s skips r) (is_continue-true _ go)
          (turn-TurnSound limit s skips r (is_continue-true _ go) h) (run_from-Sound limit rs))
]
  where
    after :
        (t : Turn)
        → evaluate s ≡ continue
        → TurnSound limit s skips r t
        → ((s' : State) (skips' : ℕ)
            → Capped s'
            → Patient limit skips'
            → Sound limit skips' rs (run_from limit rs s' skips'))
        → Sound limit skips (r ∷ rs) (elim t [
          | leave s' v e ↦ returned s' v e
          | again s' skips' ↦ run_from limit rs s' skips'
        ])
    after (leave s' v e) go (same, cont, inl failed) ih =
        (subst Capped (sym same) h, inr (cont, ap evaluate same ∙ go, inl failed))
    after (leave s' v e) go (same, cont, inr (d, positive, enough)) ih = (
      subst Capped (sym same) h,
      inr (
        cont,
        ap evaluate same ∙ go,
        inr (positive, ([], r ∷ [], rs, refl, (d, tt), inr (refl, omega arith))),
      ),
    )
    after (again s' skips') go (capped, patient, c) ih =
        Sound-cons limit skips skips' r rs (run_from limit rs s' skips') c
          (ih s' skips' capped patient)

-- Every run, over any rounds: the trade cap is not passed; and the run returns a rule's verdict that
-- holds of its last state; or Continue with no rule fired, with an error, or because somewhere in the
-- rounds the advisor declined as often in a row as a positive limit on skips says; or it waits for a
-- further round with no rule fired and the count of skips below the limit.
pub run-Sound :
    (cfg : EngineConfig) (rs : List Round) → Sound cfg.max_consecutive_skips 0 rs (run cfg rs)
unfolding run
run-Sound cfg rs =
    run_from-Sound cfg.max_consecutive_skips rs _ 0 (cap_start cfg.goal.max_trades)
      (Patient-start cfg.max_consecutive_skips)
  where
    cap_start : (m : ℤ) → (m ≤ℤ pos 0) ⊎ (pos 0 ≤ℤ m)
    cap_start m = omega arith
