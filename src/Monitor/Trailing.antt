-- ===== src/Monitor/Trailing.antt =====
-- internal/monitor/trailing.go: where the stop-loss of a position goes.
use joinanny.Base.{ℕ, Bool, true, false, ◌&&◌, if◌then◌else◌}
use joinanny.Base.Int.{pos}
use joinanny.Decimal.{
  Decimal, Result, ok, err, decimal_zero, new_from_int, is_positive, is_lt, is_gt, cmp, sub, add,
  mul, quo_floor,
}
use joinanny.Domain.{PositionSide}
pub mod Ratchet

pub record TrailPolicy : Type 0 where
  pub activate_pct : Decimal
  pub trail_gap_pct : Decimal

-- `TrailPolicy.Valid`.
unfoldable pub valid : TrailPolicy → Bool
valid p = is_positive p.activate_pct && is_positive p.trail_gap_pct

unfoldable pub percent_of : Decimal → Decimal → Decimal
percent_of value pct = elim (quo_floor (mul value pct) (new_from_int (pos 100)) 8) [
  | ok result ↦ result
  | err _ ↦ decimal_zero
]

-- The case of a long position in the `switch` of `ComputeStop`.
pub stop_long : Decimal → Decimal → Decimal → Decimal → Decimal → Decimal × Bool
stop_long entry current mark activate gap =
    if is_lt (cmp (sub mark entry) activate)
    then (current, false)
    else let behind = sub mark gap in
      let candidate = if is_lt (cmp behind entry) then entry else behind in
      if is_gt (cmp candidate current) then (candidate, true) else (current, false)

-- The case of a short position.
pub stop_short : Decimal → Decimal → Decimal → Decimal → Decimal → Decimal × Bool
stop_short entry current mark activate gap =
    if is_lt (cmp (sub entry mark) activate)
    then (current, false)
    else let behind = add mark gap in
      let candidate = if is_gt (cmp behind entry) then entry else behind in
      if is_lt (cmp candidate current) then (candidate, true) else (current, false)

pub stop_for : PositionSide → Decimal → Decimal → Decimal → Decimal → Decimal → Decimal × Bool
stop_for PositionSide.long entry current mark activate gap =
    stop_long entry current mark activate gap
stop_for PositionSide.short entry current mark activate gap =
    stop_short entry current mark activate gap
stop_for (PositionSide.other s) entry current mark activate gap = (current, false)

unfoldable pub compute_stop :
    PositionSide → Decimal → Decimal → Decimal → TrailPolicy → Decimal × Bool
unfolding stop_for
compute_stop side entry current mark policy =
    if valid policy
    then stop_for side entry current mark (percent_of entry policy.activate_pct)
        (percent_of entry policy.trail_gap_pct)
    else (current, false)
