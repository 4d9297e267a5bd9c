-- ===== src/Monitor/Tick/OneWay.antt =====
-- A pass of internal/monitor/runner.go only ever tightens the stop of a symbol that is held long.
use text.Mathlib.Text.{◌==◌ as str_eq}
use text.Mathlib.TextEquality.{eq_iff}
use joinanny.Base.{
  ℕ, suc, ◌+◌, ◌*◌, ◌≤◌, ◌<◌, ◌≡◌, ◌≢◌, refl, sym, subst, ◌⊎◌, inl, inr, String, Bool, true, false,
  some, List, [], ◌∷◌, All, arith, Bool-cases,
}
use native.Mathlib.Nat.{lt_of_mul-lt-mul_left, mul-le-mul_left}
use joinanny.Base.Int.{ℤ, pos, negsuc, ◌+ℤ◌, ◌*ℤ◌, ◌≤ℤ◌, ◌<ℤ◌, +ℤ_parts}
use joinanny.Decimal.Scale.{coeff_at}
use joinanny.Binance.Quantity.Rounding.{Rounded}
use joinanny.Decimal.{Decimal, is_zero, is_lt, sign}
use joinanny.Decimal.Order.{AtMost, AtMost-iff, AtMost-self, AtMost-trans, Below-AtMost}
use joinanny.Domain.{PositionSide, Position}
use joinanny.Monitor.Trailing.{TrailPolicy, compute_stop}
use joinanny.Monitor.Trailing.Ratchet.{Raised, compute_stop-Trails}
use joinanny.Monitor.Tick.{
  StopState, StopRead, Exchange, Runner, apply_move, trail_stop, trail_position, trail_all, tick,
}

-- The second reading has a stop no lower than the first, or the first had none and nothing changed.
abbrev pub Higher : StopRead → StopRead → Type 0
Higher (StopRead.found a) (StopRead.found b) = AtMost a.price b.price
Higher (StopRead.found a) _ = ⊥
Higher StopRead.no_stop r = r ≡ StopRead.no_stop
Higher StopRead.read_failed r = r ≡ StopRead.read_failed

Higher-self : (r : StopRead) → Higher r r
Higher-self (StopRead.found a) = AtMost-self a.price
Higher-self StopRead.no_stop = refl
Higher-self StopRead.read_failed = refl

Higher-trans : (q r s : StopRead) → Higher q r → Higher r s → Higher q s
Higher-trans (StopRead.found a) (StopRead.found b) (StopRead.found c) h k =
    AtMost-trans a.price b.price c.price h k
Higher-trans (StopRead.found a) (StopRead.found b) StopRead.no_stop h k = k
Higher-trans (StopRead.found a) (StopRead.found b) StopRead.read_failed h k = k
Higher-trans (StopRead.found a) StopRead.no_stop s h k = absurd h
Higher-trans (StopRead.found a) StopRead.read_failed s h k = absurd h
Higher-trans StopRead.no_stop r s h k = subst (λ u. Higher u s) h k
Higher-trans StopRead.read_failed r s h k = subst (λ u. Higher u s) h k

-- A price that a price is rounded down to, by a tick.
abbrev pub OnTick : Decimal → Decimal → Type 0
OnTick tick price = (asked : Decimal) × Rounded asked tick price

-- What the pass relies on: a stop stands at a price rounded to its symbol's tick; moving a stop changes no
-- other symbol's stop, and leaves the symbol with the old stop or with one at the price that was asked
-- for, rounded down to the tick, as `MoveStopLoss` of internal/exchange/binance/executor.go rounds it.
pub record MovesOnly (ex : Exchange) : Type 0 where
  pub tick_size : String → Decimal
  pub on_tick :
      (w : ex.World) (s : String) (stop : StopState)
      → ex.current_stop w s ≡ StopRead.found stop
      → OnTick (tick_size s) stop.price
  pub elsewhere :
      (w : ex.World) (s t : String) (side : PositionSide) (price : Decimal) (old new : String)
      → s ≢ t
      → ex.current_stop (ex.move_stop_loss w s side price old new).0 t ≡ ex.current_stop w t
  pub here :
      (w : ex.World) (s : String) (side : PositionSide) (price : Decimal) (old new : String)
      → (ex.current_stop (ex.move_stop_loss w s side price old new).0 s ≡ ex.current_stop w s)
        ⊎ ((stop : StopState) × (ex.current_stop (ex.move_stop_loss w s side price old new).0 s
              ≡ StopRead.found stop)
            × Rounded price (tick_size s) stop.price)

-- Among multiples: what is not above a value is not above the value rounded down.
pos_whole_below :
    (a p q : ℕ) (v : ℤ) → pos (a * p) ≤ℤ v → v <ℤ pos (a * q) +ℤ pos a → pos (a * p) ≤ℤ pos (a * q)
pos_whole_below a p q v low close =
    let next : a * p < a * q + a = ground (arith, +ℤ_parts (pos (a * q)) (pos a)) in
    let room : a * p < a * suc q = omega arith in
    let fewer : p < suc q = lt_of_mul-lt-mul_left a room in
    let within : a * p ≤ a * q = mul-le-mul_left a (omega arith) in omega arith

whole_below :
    (t s v r : ℤ) (p q : ℕ)
    → s ≡ t *ℤ pos p
    → r ≡ t *ℤ pos q
    → s ≤ℤ v
    → r ≤ℤ v
    → v <ℤ r +ℤ t
    → s ≤ℤ r
unfolding ◌*ℤ◌
whole_below (negsuc a) s v r p q hs hr low below close =
    absurd (omega (arith, +ℤ_parts r (negsuc a)))
whole_below (pos a) s v r p q hs hr low below close =
    subst (λ u. u ≤ℤ r) (sym hs)
      (subst (λ u. pos (a * p) ≤ℤ u) (sym hr)
        (pos_whole_below a p q v (subst (λ u. u ≤ℤ v) hs low)
          (subst (λ u. v <ℤ u +ℤ pos a) hr close)))

OnTick-AtMost :
    (tick stop asked rounded : Decimal)
    → OnTick tick stop
    → AtMost stop asked
    → Rounded asked tick rounded
    → AtMost stop rounded
OnTick-AtMost tick stop asked rounded (first, on) low floors =
    let n : ℕ = tick.scale + stop.scale + asked.scale + rounded.scale + first.scale in
    let ft : tick.scale ≤ n = omega arith in
    let fs : stop.scale ≤ n = omega arith in
    let fa : asked.scale ≤ n = omega arith in
    let fr : rounded.scale ≤ n = omega arith in
    let e = on n (omega arith) ft in
    let f = floors n fa ft in
    (AtMost-iff stop rounded n fs fr).1 (
      whole_below (coeff_at n tick) (coeff_at n stop) (coeff_at n asked) (coeff_at n rounded)
        e.quotient f.quotient e.multiple f.multiple ((AtMost-iff stop asked n fs fa).0 low) f.below
        f.close)

-- A position is in another symbol, or it is long, with an entry price that is not negative.
abbrev pub LongIn : String → Position → Type 0
LongIn s p = (p.symbol ≢ s) ⊎ ((p.side ≡ PositionSide.long) × (is_lt (sign p.entry_price) ≡ false))

Raised-AtMost :
    (entry current mark activate : Decimal) (result : Decimal × Bool)
    → Raised entry current mark activate result
    → AtMost current result.0
Raised-AtMost entry current mark activate (stop, changed) (inl (_, same)) =
    subst (λ u. AtMost current u) (sym same) (AtMost-self current)
Raised-AtMost entry current mark activate (stop, changed) (inr (_, up, _, _, _)) =
    Below-AtMost current stop up

long_raises :
    (p : Position) (policy : TrailPolicy) (stop : Decimal)
    → p.side ≡ PositionSide.long
    → is_lt (sign p.entry_price) ≡ false
    → AtMost stop (compute_stop p.side p.entry_price stop p.mark_price policy).0
long_raises p policy stop long h = rw long (
    Raised-AtMost p.entry_price stop p.mark_price _ _
      (compute_stop-Trails PositionSide.long p.entry_price stop p.mark_price policy h))

module _ (ex : Exchange) (law : MovesOnly ex) (s : String) where
  open ex use {World, current_stop}

  apply_move-Higher :
      (r : Runner) (w : World) (p : Position) (stop : StopState) (result : Decimal × Bool)
      → current_stop w p.symbol ≡ StopRead.found stop
      → (p.symbol ≡ s → AtMost stop.price result.0)
      → Higher (current_stop w s) (current_stop (apply_move ex r w p stop result).1 s)
  unfolding apply_move
  apply_move-Higher r w p stop (new_stop, false) e h = Higher-self (current_stop w s)
  apply_move-Higher r w p stop (new_stop, true) e h = by_symbol (Bool-cases (str_eq p.symbol s))
    where
      w' : World
      w' =
          (ex.move_stop_loss w p.symbol p.side new_stop stop.client_algo_id
            (r.new_id p.symbol (r.seq + 1))).0

      at_own : p.symbol ≡ s → Higher (current_stop w p.symbol) (current_stop w' p.symbol)
      at_own q =
          elim (law.here w p.symbol p.side new_stop stop.client_algo_id
            (r.new_id p.symbol (r.seq + 1))) [
              | inl kept ↦ rw kept (Higher-self (current_stop w p.symbol))
              | inr (stop', moved, floors) ↦
                  rw (e, moved)
                    (OnTick-AtMost (law.tick_size p.symbol) stop.price new_stop stop'.price
                      (law.on_tick w p.symbol stop e) (h q) floors)
            ]

      by_symbol :
          (str_eq p.symbol s ≡ true) ⊎ (str_eq p.symbol s ≡ false)
          → Higher (current_stop w s) (current_stop w' s)
      by_symbol (inl same) =
          let q : p.symbol ≡ s = (eq_iff p.symbol s).0 same in
          subst (λ u. Higher (current_stop w u) (current_stop w' u)) q (at_own q)
      by_symbol (inr differ) =
          rw
            (law.elsewhere w p.symbol s p.side new_stop stop.client_algo_id
              (r.new_id p.symbol (r.seq + 1)) (λ q. cc (differ, (eq_iff p.symbol s).1 q)))
            (Higher-self (current_stop w s))

  trail_stop-Higher :
      (r : Runner) (w : World) (p : Position) (read : StopRead)
      → LongIn s p
      → current_stop w p.symbol ≡ read
      → Higher (current_stop w s) (current_stop (trail_stop ex r w p read).1 s)
  unfolding trail_stop
  trail_stop-Higher r w p StopRead.read_failed h e = Higher-self (current_stop w s)
  trail_stop-Higher r w p StopRead.no_stop h e = Higher-self (current_stop w s)
  trail_stop-Higher r w p (StopRead.found stop) h e =
      apply_move-Higher r w p stop
        (compute_stop p.side p.entry_price stop.price p.mark_price r.policy) e
        (λ q. elim h [
          | inl apart ↦ absurd (apart q)
          | inr (long, nonneg) ↦ long_raises p r.policy stop.price long nonneg
        ])

  trail_position-Higher :
      (r : Runner) (w : World) (p : Position)
      → LongIn s p
      → Higher (current_stop w s) (current_stop (trail_position ex r w p).1 s)
  unfolding trail_position
  trail_position-Higher r w p h = elim (Bool-cases (is_zero p.amount)) [
    | inl flat ↦ rw flat (Higher-self (current_stop w s))
    | inr held ↦ rw held (trail_stop-Higher r w p (current_stop w p.symbol) h refl)
  ]

  trail_all-Higher :
      (r : Runner) (w : World) (ps : List Position)
      → All (LongIn s) ps
      → Higher (current_stop w s) (current_stop (trail_all ex r w ps).1 s)
  unfolding trail_all
  trail_all-Higher r w [] h = Higher-self (current_stop w s)
  trail_all-Higher r w (p ∷ ps) h =
      let (r', w') = trail_position ex r w p in
      Higher-trans (current_stop w s) (current_stop w' s) (current_stop (trail_all ex r' w' ps).1 s)
        (trail_position-Higher r w p h.0) (trail_all-Higher r' w' ps h.1)

-- A pass over the open positions does not lower the stop of a symbol that is held long only, at
-- entry prices that are not negative, and neither removes a stop nor makes one: whatever the other
-- positions are, and whichever calls of the exchange fail, provided that stops stand at prices
-- rounded to their symbol's tick, and that moving a stop changes no other symbol's and leaves the old stop or one
-- at the new price rounded down to the tick.
pub tick-Higher :
    (ex : Exchange) (s : String) (r : Runner) (w : ex.World) (ps : List Position)
    → MovesOnly ex
    → ex.positions w ≡ some ps
    → All (LongIn s) ps
    → Higher (ex.current_stop w s) (ex.current_stop (tick ex r w).0.1 s)
unfolding tick
tick-Higher ex s r w ps law e h = rw (e, tick) (trail_all-Higher ex law s r w ps h)
