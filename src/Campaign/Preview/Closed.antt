-- ===== src/Campaign/Preview/Closed.antt =====
-- The profit of a preview of internal/campaign/simulate.go in closed form.
use native.Mathlib.Nat.{mul-le-mul_left}
use joinanny.Base.{
  ℕ, ◌+◌, ◌-◌, ◌≤◌, ◌≡◌, refl, sym, ap, ◌∙◌, inl, inr, Bool, true, false, arith, [], ltb,
  if◌then◌else◌, Bool-cases,
}
use joinanny.Base.Int.{
  ℤ, pos, negsuc, ◌+ℤ◌, ◌-ℤ◌, ◌*ℤ◌, neg as neg_ℤ, neg_parts, int_laws, *ℤ-pos_parts,
}
use joinanny.Decimal.{Decimal, add, neg}
use joinanny.Decimal.Scale.{coeff_at, zero-*ℤ}
use joinanny.Decimal.Arithmetic.{coeff-add, coeff-neg, scale-add, scale-neg}
use joinanny.Campaign.{Goal, State}
use joinanny.Campaign.Preview.{wins_by_now, simulate_trade, simulate, start, hard_cap}
use joinanny.Campaign.Preview.Loop.{simulate_from_rule}

-- One more trade brings at most one more win, and the wins are spread evenly.
pub wins_by_now_step :
    (i : ℕ) (rate : ℤ)
    → (wins_by_now i rate ≤ wins_by_now (i + 1) rate)
      × (wins_by_now (i + 1) rate ≤ wins_by_now i rate + 1)
unfolding wins_by_now
wins_by_now_step i (negsuc r) = ground arith
wins_by_now_step i (pos r) = ground arith

-- The number of wins stays within the number of trades.
pub wins_by_now-le : (i : ℕ) (rate : ℤ) → wins_by_now i rate ≤ i
unfolding wins_by_now
wins_by_now-le i (negsuc r) = ground arith
wins_by_now-le i (pos r) = ground (arith, λ (p : r ≤ 100). mul-le-mul_left i p)

-- wins * reward - losses * risk, in units of 10^-n, after so many trades.
pub closed_pnl : Goal → ℕ → ℕ → ℤ
closed_pnl g n trades =
    let wins = wins_by_now trades g.assumed_win_rate in
    coeff_at n g.reward_per_trade_usdt *ℤ pos wins
    -ℤ coeff_at n g.risk_per_trade_usdt *ℤ pos (trades - wins)

*ℤ-add : (v : ℤ) (j k : ℕ) → v *ℤ pos (j + k) ≡ v *ℤ pos j +ℤ v *ℤ pos k
*ℤ-add v j k = omega (int_laws, *ℤ-pos_parts v (j + k), *ℤ-pos_parts v j, *ℤ-pos_parts v k)

*ℤ-one : (v : ℤ) → v *ℤ pos 1 ≡ v
*ℤ-one v = omega (int_laws, *ℤ-pos_parts v 1)

tally_step :
    (r k : ℤ) (w w' i : ℕ)
    → w ≤ w'
    → w' ≤ w + 1
    → w ≤ i
    → r *ℤ pos w' -ℤ k *ℤ pos (i + 1 - w')
      ≡ (r *ℤ pos w -ℤ k *ℤ pos (i - w) +ℤ (if ltb w w' then r else neg_ℤ k))
tally_step r k w w' i h h' l = elim (Bool-cases (ltb w w')) [
  | inl won ↦
      let e : w' ≡ w + 1 = ground arith in
      let f : i + 1 - w' ≡ i - w = omega arith in
      rw (won, f, e, *ℤ-add r w 1, *ℤ-one r) (omega int_laws)
  | inr lost ↦
      let e : w' ≡ w = ground arith in
      let f : i + 1 - w ≡ i - w + 1 = omega arith in
      rw (lost, e, f, *ℤ-add k (i - w) 1, *ℤ-one k) (omega (int_laws, neg_parts k))
]

-- The profit of one trade, added up.
pub choose-fine :
    (win : Bool) (a x y : Decimal) (n : ℕ)
    → a.scale ≤ n
    → x.scale ≤ n
    → y.scale ≤ n
    → (add a (if win then x else neg y)).scale ≤ n
choose-fine true a x y n ha hx hy = scale-add a x n ha hx
choose-fine false a x y n ha hx hy = scale-add a (neg y) n ha (scale-neg y n hy)

pub choose-coeff :
    (win : Bool) (a x y : Decimal) (n : ℕ)
    → a.scale ≤ n
    → x.scale ≤ n
    → y.scale ≤ n
    → coeff_at n (add a (if win then x else neg y))
      ≡ (coeff_at n a +ℤ (if win then coeff_at n x else neg_ℤ (coeff_at n y)))
choose-coeff true a x y n ha hx hy = coeff-add a x n ha hx
choose-coeff false a x y n ha hx hy =
    coeff-add a (neg y) n ha (scale-neg y n hy) ∙ ap (λ u. coeff_at n a +ℤ u) (coeff-neg y n hy)

-- One more trade adds the reward or takes the risk, as the wins say.
closed_pnl_step :
    (g : Goal) (n i : ℕ)
    → closed_pnl g n (i + 1) ≡ (
        closed_pnl g n i
        +ℤ (if ltb (wins_by_now i g.assumed_win_rate) (wins_by_now (i + 1) g.assumed_win_rate)
            then coeff_at n g.reward_per_trade_usdt
            else neg_ℤ (coeff_at n g.risk_per_trade_usdt)))
unfolding closed_pnl
closed_pnl_step g n i =
    let (low, high) = wins_by_now_step i g.assumed_win_rate in
    tally_step (coeff_at n g.reward_per_trade_usdt) (coeff_at n g.risk_per_trade_usdt)
      (wins_by_now i g.assumed_win_rate) (wins_by_now (i + 1) g.assumed_win_rate) i low high
      (wins_by_now-le i g.assumed_win_rate)

-- The tally after i trades.
pub record Tallied (n i : ℕ) (s : State) : Type 0 where
  pub counted : s.trades_closed ≡ i
  pub reward_fine : s.goal.reward_per_trade_usdt.scale ≤ n
  pub risk_fine : s.goal.risk_per_trade_usdt.scale ≤ n
  pub fine : s.realized_pnl.scale ≤ n
  pub value : coeff_at n s.realized_pnl ≡ closed_pnl s.goal n i

simulate_trade-Tallied :
    (n i : ℕ) (s : State) → Tallied n i s → Tallied n (i + 1) (simulate_trade i s).0
unfolding simulate_trade
simulate_trade-Tallied n i s h = record {
  counted = omega arith;
  reward_fine = h.reward_fine;
  risk_fine = h.risk_fine;
  fine =
      choose-fine _ s.realized_pnl s.goal.reward_per_trade_usdt s.goal.risk_per_trade_usdt n h.fine
        h.reward_fine h.risk_fine;
  value =
      choose-coeff _ s.realized_pnl s.goal.reward_per_trade_usdt s.goal.risk_per_trade_usdt n h.fine
        h.reward_fine h.risk_fine
      ∙ rw h.value (sym (closed_pnl_step s.goal n i));
}

closed_pnl_start : (g : Goal) (n : ℕ) → closed_pnl g n 0 ≡ pos 0
unfolding closed_pnl
closed_pnl_start g n =
    let none_won : wins_by_now 0 g.assumed_win_rate ≡ 0 =
      omega (arith, wins_by_now-le 0 g.assumed_win_rate) in
    rw none_won (
      omega (
        int_laws,
        *ℤ-pos_parts (coeff_at n g.reward_per_trade_usdt) 0,
        *ℤ-pos_parts (coeff_at n g.risk_per_trade_usdt) 0,
      ))

-- A run keeps the goal.
pub goal-simulate : (g : Goal) → (simulate g).state.goal ≡ g
unfolding simulate
goal-simulate g =
    (simulate_from_rule (λ i s. s.goal ≡ g) (λ i s h e. unfold simulate_trade in h) hard_cap 0
      (start g) [] refl).1

-- The profit of a preview is the number of wins times the reward less the number of losses times
-- the risk, exactly, in any unit 10^-n that is fine enough for both amounts; of T trades,
-- floor(T * rate / 100) are wins.
pub simulate-pnl :
    (g : Goal) (n : ℕ)
    → g.reward_per_trade_usdt.scale ≤ n
    → g.risk_per_trade_usdt.scale ≤ n
    → let s = (simulate g).state in coeff_at n s.realized_pnl ≡ closed_pnl g n s.trades_closed
unfolding simulate
simulate-pnl g n h k =
    let (j, t) =
      simulate_from_rule (Tallied n) (λ i s inv e. simulate_trade-Tallied n i s inv) hard_cap 0
        (start g) []
        (record {
          counted = refl;
          reward_fine = h;
          risk_fine = k;
          fine = omega arith;
          value = zero-*ℤ _ ∙ sym (closed_pnl_start g n);
        }) in
    t.value ∙ (λ i. closed_pnl (goal-simulate g i) n (sym t.counted i))
