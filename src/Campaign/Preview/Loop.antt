-- ===== src/Campaign/Preview/Loop.antt =====
-- The loop of `Simulate` in internal/campaign/simulate.go: a rule for its invariants, and how it ends.
use joinanny.Base.{
  ℕ, zero, suc, ◌+◌, ◌≤◌, ◌≡◌, ◌≢◌, refl, ◌⊎◌, inl, inr, true, false, arith, List, [], ◌∷◌, ◌++◌,
  length, Bool-cases,
}
use joinanny.Campaign.{Goal, State, Verdict, continue, evaluate}
use joinanny.Campaign.Preview.{
  TradeOutcome, hard_cap, is_continue, simulate_trade, simulate_from, simulate, start,
}

is_continue-true : (v : Verdict) → is_continue v ≡ true → v ≡ continue
is_continue-true v h = ground arith

is_continue-false : (v : Verdict) → is_continue v ≡ false → v ≢ continue
is_continue-false v h = ground arith

-- What a trade keeps while no rule fires, the whole loop keeps.
pub simulate_from_rule :
    (P : ℕ → State → Type 0)
    → ((i : ℕ) (s : State) → P i s → evaluate s ≡ continue → P (i + 1) (simulate_trade i s).0)
    → (rounds i : ℕ) (s : State) (outs : List TradeOutcome) → P i s
    → (j : ℕ) × P j (simulate_from rounds i s outs).state
unfolding simulate_from
simulate_from_rule P keep zero i s outs h = (i, h)
simulate_from_rule P keep (suc rounds) i s outs h = elim (Bool-cases (is_continue (evaluate s))) [
  | inr stop ↦ rw stop (i, h)
  | inl go ↦ rw go (
      simulate_from_rule P keep rounds (i + 1) (simulate_trade i s).0
        (outs ++ (simulate_trade i s).1 ∷ []) (keep i s h (is_continue-true _ go)))
]

length-snoc {ℓ} : {A : Type ℓ} (xs : List A) (x : A) → length (xs ++ x ∷ []) ≡ length xs + 1
length-snoc [] x = omega arith
length-snoc (y ∷ xs) x = omega (arith, length-snoc xs x)

trades_closed-simulate_trade :
    (i : ℕ) (s : State) → (simulate_trade i s).0.trades_closed ≡ s.trades_closed + 1
unfolding simulate_trade
trades_closed-simulate_trade i s = refl

-- How a run from `s` ends: one outcome for each closed trade, the verdict of the last state, and a
-- rule that fired or all the rounds used.
simulate_from_end :
    (rounds i : ℕ) (s : State) (outs : List TradeOutcome)
    → s.trades_closed ≡ length outs
    → let r = simulate_from rounds i s outs in
      (r.state.trades_closed ≡ length r.outcomes)
      × (r.verdict ≡ evaluate r.state)
      × ((r.verdict ≢ continue) ⊎ (r.state.trades_closed ≡ s.trades_closed + rounds))
      × (r.state.trades_closed ≤ s.trades_closed + rounds)
unfolding simulate_from
simulate_from_end zero i s outs h = (h, refl, inr (omega arith), omega arith)
simulate_from_end (suc rounds) i s outs h = elim (Bool-cases (is_continue (evaluate s))) [
  | inr stop ↦ rw stop (h, refl, inl (is_continue-false _ stop), omega arith)
  | inl go ↦
      let next = (simulate_trade i s).0 in
      let more : next.trades_closed ≡ s.trades_closed + 1 = trades_closed-simulate_trade i s in
      let (counts, verdict, ends, bound) =
        simulate_from_end rounds (i + 1) next (outs ++ (simulate_trade i s).1 ∷ [])
          (omega (arith, more, length-snoc outs (simulate_trade i s).1)) in
      rw go (counts, verdict, ends_later ends more, omega arith)
]
  where
    ends_later :
        {v : Verdict} {t m : ℕ}
        → ((v ≢ continue) ⊎ (t ≡ m + rounds))
        → m ≡ s.trades_closed + 1
        → (v ≢ continue) ⊎ (t ≡ s.trades_closed + suc rounds)
    ends_later (inl stopped) e = inl stopped
    ends_later (inr full) e = inr (omega arith)

-- Every preview ends: after at most 1000 trades, one outcome for each, with the verdict of its last
-- state, which is a stop rule unless all 1000 trades were made.
pub simulate_end :
    (g : Goal)
    → let r = simulate g in
      (r.state.trades_closed ≡ length r.outcomes)
      × (r.verdict ≡ evaluate r.state)
      × ((r.verdict ≢ continue) ⊎ (r.state.trades_closed ≡ hard_cap))
      × (r.state.trades_closed ≤ hard_cap)
unfolding simulate
simulate_end g = simulate_from_end hard_cap 0 (start g) [] refl
