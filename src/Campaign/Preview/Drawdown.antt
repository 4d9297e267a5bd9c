-- ===== src/Campaign/Preview/Drawdown.antt =====
-- How far a preview of internal/campaign/simulate.go can lose.
use joinanny.Base.{
  ℕ, ◌-◌, ◌^◌, ◌≤◌, ◌≡◌, subst, inl, inr, Bool, true, false, arith, [], if◌then◌else◌,
}
use joinanny.Base.Int.{ℤ, pos, ◌+ℤ◌, ◌≤ℤ◌, ◌<ℤ◌, neg as neg_ℤ, neg_parts, int_laws}
use joinanny.Decimal.{add, neg, sign, is_lt, is_positive}
use joinanny.Decimal.Scale.{coeff_at, zero-*ℤ}
use joinanny.Decimal.Arithmetic.{coeff-add, coeff-neg, scale-add, scale-neg}
use joinanny.Decimal.Order.{Below, Below-iff, gt→lt, nonneg-coeff, pos-coeff}
use joinanny.Campaign.{Goal, State, continue, evaluate}
use joinanny.Campaign.Rules.{Decided, evaluate-Decided}
use joinanny.Campaign.Preview.{simulate_trade, simulate, start, hard_cap}
use joinanny.Campaign.Preview.Loop.{simulate_from_rule}
use joinanny.Campaign.Preview.Closed.{choose-fine, choose-coeff, goal-simulate}

-- Amounts of a goal that a unit of 10^-n can hold, with the signs that they are meant to have.
pub record Bounded (n : ℕ) (g : Goal) : Type 0 where
  pub reward_fine : g.reward_per_trade_usdt.scale ≤ n
  pub risk_fine : g.risk_per_trade_usdt.scale ≤ n
  pub drawdown_fine : g.max_drawdown_usdt.scale ≤ n
  pub reward_nonneg : is_lt (sign g.reward_per_trade_usdt) ≡ false
  pub risk_nonneg : is_lt (sign g.risk_per_trade_usdt) ≡ false
  pub drawdown_positive : is_positive g.max_drawdown_usdt ≡ true

-- The loss so far is less than the drawdown limit and the risk of one trade.
record Within (n : ℕ) (s : State) : Type 0 where
  amounts : Bounded n s.goal
  fine : s.realized_pnl.scale ≤ n
  above :
      pos 0
      <ℤ coeff_at n s.realized_pnl
        +ℤ coeff_at n s.goal.max_drawdown_usdt
        +ℤ coeff_at n s.goal.risk_per_trade_usdt

-- While no rule fires, the loss is less than the drawdown limit.
continue_above :
    (n : ℕ) (s : State)
    → Within n s
    → evaluate s ≡ continue
    → pos 0 <ℤ coeff_at n s.realized_pnl +ℤ coeff_at n s.goal.max_drawdown_usdt
continue_above n s h e =
    let d = s.goal.max_drawdown_usdt in
    let (_, not_hit, _) = subst (Decided s) e (evaluate-Decided s) in
    elim not_hit [
      | inl off ↦ cc (off, h.amounts.drawdown_positive)
      | inr above ↦
          let over : neg_ℤ (coeff_at n d) <ℤ coeff_at n s.realized_pnl =
            subst (λ u. u <ℤ coeff_at n s.realized_pnl) (coeff-neg d n h.amounts.drawdown_fine)
              (gt→lt s.realized_pnl (neg d) n h.fine (scale-neg d n h.amounts.drawdown_fine)
                above) in
          omega (int_laws, over, neg_parts (coeff_at n d))
    ]

one_trade :
    (win : Bool) (p d r k : ℤ)
    → pos 0 <ℤ p +ℤ d
    → pos 0 ≤ℤ r
    → pos 0 ≤ℤ k
    → pos 0 <ℤ p +ℤ (if win then r else neg_ℤ k) +ℤ d +ℤ k
one_trade true p d r k h hr hk = omega int_laws
one_trade false p d r k h hr hk = omega (int_laws, neg_parts k)

simulate_trade-Within :
    (n i : ℕ) (s : State) → Within n s → evaluate s ≡ continue → Within n (simulate_trade i s).0
unfolding simulate_trade
simulate_trade-Within n i s h e =
    let g = s.goal in
    record {
      amounts = h.amounts;
      fine =
          choose-fine _ s.realized_pnl g.reward_per_trade_usdt g.risk_per_trade_usdt n h.fine
            h.amounts.reward_fine h.amounts.risk_fine;
      above =
          rw
            (choose-coeff _ s.realized_pnl g.reward_per_trade_usdt g.risk_per_trade_usdt n h.fine
              h.amounts.reward_fine h.amounts.risk_fine)
            (one_trade _ (coeff_at n s.realized_pnl) (coeff_at n g.max_drawdown_usdt)
              (coeff_at n g.reward_per_trade_usdt) (coeff_at n g.risk_per_trade_usdt)
              (continue_above n s h e)
              (nonneg-coeff g.reward_per_trade_usdt n h.amounts.reward_nonneg)
              (nonneg-coeff g.risk_per_trade_usdt n h.amounts.risk_nonneg));
    }

start-Within : (n : ℕ) (g : Goal) → Bounded n g → Within n (start g)
start-Within n g b = record {
  amounts = b;
  fine = omega arith;
  above = rw (zero-*ℤ (10 ^ (n - 0))) (
      omega (
        int_laws,
        pos-coeff g.max_drawdown_usdt n b.drawdown_positive,
        nonneg-coeff g.risk_per_trade_usdt n b.risk_nonneg,
      ));
}

-- A preview never loses as much as the drawdown limit and the risk of one trade together, for a
-- positive limit and a reward and a risk that are not negative.
pub simulate-Below :
    (g : Goal) (n : ℕ)
    → Bounded n g
    → Below (neg (add g.max_drawdown_usdt g.risk_per_trade_usdt)) (simulate g).state.realized_pnl
unfolding simulate
simulate-Below g n b =
    let (_, w) =
      simulate_from_rule (λ i s. Within n s) (λ i s. simulate_trade-Within n i s) hard_cap 0
        (start g) [] (start-Within n g b) in
    let d = g.max_drawdown_usdt in
    let k = g.risk_per_trade_usdt in
    let p = (simulate g).state.realized_pnl in
    let above : pos 0 <ℤ coeff_at n p +ℤ coeff_at n d +ℤ coeff_at n k =
      subst
        (λ (u : Goal).
          pos 0
          <ℤ coeff_at n p +ℤ coeff_at n u.max_drawdown_usdt +ℤ coeff_at n u.risk_per_trade_usdt)
        (goal-simulate g) w.above in
    let fits = scale-add d k n b.drawdown_fine b.risk_fine in
    (Below-iff (neg (add d k)) p n (scale-neg (add d k) n fits) w.fine).1 (
      rw (coeff-neg (add d k) n fits, coeff-add d k n b.drawdown_fine b.risk_fine)
        (omega (int_laws, above, neg_parts (coeff_at n d +ℤ coeff_at n k))))
