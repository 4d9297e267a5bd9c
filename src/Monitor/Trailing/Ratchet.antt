-- ===== src/Monitor/Trailing/Ratchet.antt =====
-- The guarantees of `ComputeStop` of internal/monitor/trailing.go.
use joinanny.Base.{
  ℕ, ◌+◌, ◌≤◌, ◌≡◌, subst, if◌then◌else◌, ◌⊎◌, some, inl, inr, Bool, true, false, arith, ap, ◌∙◌,
  refl, Bool-cases,
}
use joinanny.Base.Int.{ℤ, pos, negsuc, ◌*ℤ◌, ◌≤ℤ◌, ◌-ℤ◌, int_laws}
use joinanny.Decimal.{Decimal, is_lt, is_gt, cmp, sub, add, mul, sign, is_positive, new_from_int}
use joinanny.Decimal.Scale.{coeff_at}
use joinanny.Decimal.Arithmetic.{coeff-sub, coeff-add, coeff-mul, scale-sub, scale-add}
use joinanny.Decimal.Division.{sign-normalize}
use joinanny.Decimal.Quotient.{quo_floor_greatest}
use joinanny.Decimal.Order.{
  AtMost, Below, AtMost-iff, Below-iff, not_lt→le, gt→lt, nonneg-coeff, coeff-nonneg, AtMost-self,
}
use joinanny.Domain.{PositionSide}
use joinanny.Monitor.Trailing.{
  TrailPolicy, valid, percent_of, stop_long, stop_short, stop_for, compute_stop,
}

-- `Cmp` against a third value, both ways round.
flip_gt : (a b : Decimal) → is_gt (cmp a b) ≡ true → Below b a
flip_gt a b h =
    let n : ℕ = a.scale + b.scale in
    (Below-iff b a n (omega arith) (omega arith)).1 (gt→lt a b n (omega arith) (omega arith) h)

flip_not_lt : (a b : Decimal) → is_lt (cmp a b) ≡ false → AtMost b a
flip_not_lt a b h =
    let n : ℕ = a.scale + b.scale in
    (AtMost-iff b a n (omega arith) (omega arith)).1 (not_lt→le a b n (omega arith) (omega arith) h)

-- Taking away what is not negative gives no more.
sub-AtMost : (a b : Decimal) → is_lt (sign b) ≡ false → AtMost (sub a b) a
sub-AtMost a b h =
    let n : ℕ = a.scale + b.scale in
    let fa : a.scale ≤ n = omega arith in
    let fb : b.scale ≤ n = omega arith in
    (AtMost-iff (sub a b) a n (scale-sub a b n fa fb) fa).1
      (rw (coeff-sub a b n fa fb) (omega (int_laws, nonneg-coeff b n h)))

-- Adding what is not negative gives no less.
AtMost-add : (a b : Decimal) → is_lt (sign b) ≡ false → AtMost a (add a b)
AtMost-add a b h =
    let n : ℕ = a.scale + b.scale in
    let fa : a.scale ≤ n = omega arith in
    let fb : b.scale ≤ n = omega arith in
    (AtMost-iff a (add a b) n fa (scale-add a b n fa fb)).1
      (rw (coeff-add a b n fa fb) (omega (int_laws, nonneg-coeff b n h)))

-- A difference at or above a value that is not negative orders its two sides.
sub-order : (a b c : Decimal) → is_lt (sign c) ≡ false → AtMost c (sub a b) → AtMost b a
sub-order a b c h k =
    let n : ℕ = a.scale + b.scale + c.scale in
    let fa : a.scale ≤ n = omega arith in
    let fb : b.scale ≤ n = omega arith in
    let fc : c.scale ≤ n = omega arith in
    let diff : coeff_at n c ≤ℤ coeff_at n a -ℤ coeff_at n b =
      subst (λ u. coeff_at n c ≤ℤ u) (coeff-sub a b n fa fb)
        ((AtMost-iff c (sub a b) n fc (scale-sub a b n fa fb)).0 k) in
    (AtMost-iff b a n fb fa).1 (omega (int_laws, nonneg-coeff c n h, diff))

*ℤ-nonneg : (v w : ℤ) → pos 0 ≤ℤ v → pos 0 ≤ℤ w → pos 0 ≤ℤ v *ℤ w
unfolding ◌*ℤ◌
*ℤ-nonneg (pos a) (pos b) h k = omega arith
*ℤ-nonneg (pos a) (negsuc b) h k = absurd (omega arith)
*ℤ-nonneg (negsuc a) w h k = absurd (omega arith)

-- A product of two values that are not negative is not negative.
mul-nonneg :
    (a b : Decimal)
    → is_lt (sign a) ≡ false
    → is_lt (sign b) ≡ false
    → is_lt (sign (mul a b)) ≡ false
mul-nonneg a b h k = coeff-nonneg (mul a b) (a.scale + b.scale) (
    rw (coeff-mul a b a.scale b.scale (omega arith) (omega arith)) (
      *ℤ-nonneg (coeff_at a.scale a) (coeff_at b.scale b) (nonneg-coeff a a.scale h)
        (nonneg-coeff b b.scale k)))

-- A percentage of a price that is not negative is not negative.
percent_of-nonneg :
    (value pct : Decimal)
    → is_lt (sign value) ≡ false
    → is_lt (sign pct) ≡ false
    → is_lt (sign (percent_of value pct)) ≡ false
unfolding percent_of
percent_of-nonneg value pct h k =
    let (q, e, _, _) =
      quo_floor_greatest (mul value pct) (new_from_int (pos 100)) 8 (mul value pct).scale
        (omega arith) (omega arith) (mul-nonneg value pct h k) hundred in
    rw (e, percent_of)
      (ap is_lt (sign-normalize (record { value = some (pos q); scale = 8 })) ∙ not_negative q)
  where
    hundred : is_gt (sign (new_from_int (pos 100))) ≡ true
    hundred = unfold sign in refl

    not_negative : (q : ℕ) → is_lt (sign (record { value = some (pos q); scale = 8 })) ≡ false
    not_negative q = unfold sign in ground arith

-- The outcome for a long position: the stop stays, or it goes up, to the entry price or above and not
-- past the mark, with the profit at the activation distance or beyond.
abbrev pub Raised : Decimal → Decimal → Decimal → Decimal → Decimal × Bool → Type 0
Raised entry current mark activate (stop, changed) =
    ((changed ≡ false) × (stop ≡ current))
    ⊎ ((changed ≡ true)
        × Below current stop
        × AtMost entry stop
        × AtMost stop mark
        × AtMost activate (sub mark entry))

settle_long :
    (entry current mark activate candidate : Decimal)
    → AtMost entry candidate
    → AtMost candidate mark
    → AtMost activate (sub mark entry)
    → Raised entry current mark activate
        (if is_gt (cmp candidate current) then (candidate, true) else (current, false))
settle_long entry current mark activate candidate h k l =
    elim (Bool-cases (is_gt (cmp candidate current))) [
      | inl above ↦ rw above (inr (refl, flip_gt candidate current above, h, k, l))
      | inr not_above ↦ rw not_above (inl (refl, refl))
    ]

stop_long-Raised :
    (entry current mark activate gap : Decimal)
    → is_lt (sign activate) ≡ false
    → is_lt (sign gap) ≡ false
    → Raised entry current mark activate (stop_long entry current mark activate gap)
unfolding stop_long
stop_long-Raised entry current mark activate gap ha hg =
    elim (Bool-cases (is_lt (cmp (sub mark entry) activate))) [
      | inl early ↦ rw early (inl (refl, refl))
      | inr active ↦
          let profit = flip_not_lt (sub mark entry) activate active in
          rw active (elim (Bool-cases (is_lt (cmp (sub mark gap) entry))) [
            | inl under ↦ rw under (
                settle_long entry current mark activate entry (AtMost-self entry)
                  (sub-order mark entry activate ha profit) profit)
            | inr over ↦ rw over (
                settle_long entry current mark activate (sub mark gap)
                  (flip_not_lt (sub mark gap) entry over) (sub-AtMost mark gap hg) profit)
          ])
    ]

-- The outcome for a short position: the stop stays, or it goes down, to the entry price or below and
-- not past the mark.
abbrev pub Lowered : Decimal → Decimal → Decimal → Decimal → Decimal × Bool → Type 0
Lowered entry current mark activate (stop, changed) =
    ((changed ≡ false) × (stop ≡ current))
    ⊎ ((changed ≡ true)
        × Below stop current
        × AtMost stop entry
        × AtMost mark stop
        × AtMost activate (sub entry mark))

settle_short :
    (entry current mark activate candidate : Decimal)
    → AtMost candidate entry
    → AtMost mark candidate
    → AtMost activate (sub entry mark)
    → Lowered entry current mark activate
        (if is_lt (cmp candidate current) then (candidate, true) else (current, false))
settle_short entry current mark activate candidate h k l =
    elim (Bool-cases (is_lt (cmp candidate current))) [
      | inl below ↦ rw below (inr (refl, below, h, k, l))
      | inr not_below ↦ rw not_below (inl (refl, refl))
    ]

stop_short-Lowered :
    (entry current mark activate gap : Decimal)
    → is_lt (sign activate) ≡ false
    → is_lt (sign gap) ≡ false
    → Lowered entry current mark activate (stop_short entry current mark activate gap)
unfolding stop_short
stop_short-Lowered entry current mark activate gap ha hg =
    elim (Bool-cases (is_lt (cmp (sub entry mark) activate))) [
      | inl early ↦ rw early (inl (refl, refl))
      | inr active ↦
          let profit = flip_not_lt (sub entry mark) activate active in
          rw active (elim (Bool-cases (is_gt (cmp (add mark gap) entry))) [
            | inl over ↦ rw over (
                settle_short entry current mark activate entry (AtMost-self entry)
                  (sub-order entry mark activate ha profit) profit)
            | inr under ↦ rw under (
                settle_short entry current mark activate (add mark gap) under
                  (AtMost-add mark gap hg) profit)
          ])
    ]

positive→nonneg : (d : Decimal) → is_positive d ≡ true → is_lt (sign d) ≡ false
unfolding is_positive
positive→nonneg d h = ground arith

-- What `ComputeStop` guarantees, by the side of the position.
abbrev pub Trails : PositionSide → Decimal → Decimal → Decimal → Decimal → Decimal × Bool → Type 0
Trails PositionSide.long entry current mark activate result =
    Raised entry current mark activate result
Trails PositionSide.short entry current mark activate result =
    Lowered entry current mark activate result
Trails (PositionSide.other s) entry current mark activate (stop, changed) =
    (changed ≡ false) × (stop ≡ current)

stop_for-Trails :
    (side : PositionSide) (entry current mark activate gap : Decimal)
    → is_lt (sign activate) ≡ false
    → is_lt (sign gap) ≡ false
    → Trails side entry current mark activate (stop_for side entry current mark activate gap)
unfolding stop_for
stop_for-Trails PositionSide.long entry current mark activate gap ha hg =
    stop_long-Raised entry current mark activate gap ha hg
stop_for-Trails PositionSide.short entry current mark activate gap ha hg =
    stop_short-Lowered entry current mark activate gap ha hg
stop_for-Trails (PositionSide.other s) entry current mark activate gap ha hg = (refl, refl)

unchanged-Trails :
    (side : PositionSide) (entry current mark activate : Decimal)
    → Trails side entry current mark activate (current, false)
unchanged-Trails PositionSide.long entry current mark activate = inl (refl, refl)
unchanged-Trails PositionSide.short entry current mark activate = inl (refl, refl)
unchanged-Trails (PositionSide.other s) entry current mark activate = (refl, refl)

-- For an entry price that is not negative and any policy: `ComputeStop` leaves the stop and says so,
-- or moves it and says so. A long position's stop moves only up, a short one's only down, never
-- past the mark, to the entry price or to its profitable side, and only when the profit has
-- reached the activation distance. On a side that is neither nothing moves.
pub compute_stop-Trails :
    (side : PositionSide) (entry current mark : Decimal) (policy : TrailPolicy)
    → is_lt (sign entry) ≡ false
    → Trails side entry current mark
        (percent_of entry policy.activate_pct)
        (compute_stop side entry current mark policy)
unfolding compute_stop valid
compute_stop-Trails side entry current mark policy h =
    elim (Bool-cases (is_positive policy.activate_pct)) [
      | inr off ↦ rw off (unchanged-Trails side entry current mark _)
      | inl on ↦ elim (Bool-cases (is_positive policy.trail_gap_pct)) [
        | inr off ↦ rw (on, off) (unchanged-Trails side entry current mark _)
        | inl both ↦
            rw (on, both)
              (stop_for-Trails side entry current mark (percent_of entry policy.activate_pct)
                (percent_of entry policy.trail_gap_pct)
                (percent_of-nonneg entry policy.activate_pct h (positive→nonneg _ on))
                (percent_of-nonneg entry policy.trail_gap_pct h (positive→nonneg _ both)))
      ]
    ]
