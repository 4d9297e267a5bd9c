-- ===== src/Decimal/Division.antt =====
-- `FloorToStep` of internal/decimal/decimal.go against the integers in units of 10^-n.
use Prim.Native.Nat.{Ordering}
use native.Mathlib.Nat.{
  div-mul-le_self, lt-div-mul-add, mul-le-mul_right, mul-lt-mul_of_pos_right, add-mul, mul-pos,
}
use joinanny.Base.{
  ℕ, ◌+◌, ◌-◌, ◌*◌, ◌/◌, ◌^◌, ◌≤◌, ◌<◌, ◌≡◌, refl, sym, ap, ◌∙◌, true, false, inl, inr, Option,
  none, some, arith, ltb, Bool-cases,
}
use joinanny.Base.Int.{ℤ, pos, negsuc, ◌+ℤ◌, ◌*ℤ◌, ◌≤ℤ◌, ◌<ℤ◌, quo}
use joinanny.Decimal.{
  Decimal, ok, err, bad_step, negative, coefficient, normalize, sign, is_lt, is_gt, sign_ℤ, cmp_ℤ,
  floored, larger, widen, floor_to_step,
}
use joinanny.Decimal.Scale.{
  coeff_at, pow_pos, coeff-normalize, coeff-normalize-some, scale-normalize, coeff-finer, cmp_ℤ-*ℤ,
  *ℤ-one, zero-*ℤ, larger_bounds, larger_le,
}

pub sign-coefficient : (d : Decimal) → sign d ≡ sign_ℤ (coefficient d)
unfolding sign
sign-coefficient d = by_value d.value
  where
    by_value :
        (o : Option ℤ)
        → (elim o [ none ↦ Ordering.eq | some v ↦ sign_ℤ v ])
          ≡ sign_ℤ (elim o [ none ↦ pos 0 | some v ↦ v ])
    by_value none = refl
    by_value (some v) = refl

-- The sign does not depend on the unit, nor on normalizing.
pub sign-coeff_at : (d : Decimal) (n : ℕ) → sign_ℤ (coeff_at n d) ≡ sign d
sign-coeff_at d n =
    ap (cmp_ℤ (coeff_at n d)) (sym (zero-*ℤ (10 ^ (n - d.scale))))
    ∙ cmp_ℤ-*ℤ (coefficient d) (pos 0) (10 ^ (n - d.scale)) (pow_pos _)
    ∙ sym (sign-coefficient d)

pub sign-normalize : (d : Decimal) → sign (normalize d) ≡ sign d
sign-normalize d =
    sym (sign-coeff_at (normalize d) d.scale)
    ∙ ap sign_ℤ (coeff-normalize d d.scale (omega arith))
    ∙ sign-coeff_at d d.scale

widen-coeff :
    (v : ℤ) (own target : ℕ) → own ≤ target → widen v own target ≡ v *ℤ pos (10 ^ (target - own))
unfolding widen
widen-coeff v own target h = elim (Bool-cases (ltb own target)) [
  | inl more ↦ rw more
  | inr same ↦ let e : target - own ≡ 0 = ground arith in rw (same, e, *ℤ-one v)
]

-- Flooring x to a multiple of y, in a unit that is K times finer.
floor_units :
    (x y k : ℕ) → 0 < y → 0 < k → (x / y * y * k ≤ x * k) × (x * k < x / y * y * k + y * k)
floor_units x y k h p = (
  mul-le-mul_right k (div-mul-le_self x y),
  rw (← add-mul (x / y * y) y k) (mul-lt-mul_of_pos_right (lt-div-mul-add h) p),
)

-- What flooring a coefficient to a multiple of another does.
pub record FloorsTo (v t r : ℤ) : Type 0 where
  pub quotient : ℕ
  pub multiple : r ≡ t *ℤ pos quotient
  pub below : r ≤ℤ v
  pub close : v <ℤ r +ℤ t

quo-FloorsTo :
    (v t : ℤ) (k : ℕ)
    → 0 < k
    → pos 0 ≤ℤ v
    → pos 0 <ℤ t
    → FloorsTo (v *ℤ pos k) (t *ℤ pos k) (quo v t *ℤ t *ℤ pos k)
unfolding quo ◌*ℤ◌ ◌+ℤ◌
quo-FloorsTo (negsuc x) t k p hv ht = absurd (omega arith)
quo-FloorsTo (pos x) (negsuc y) k p hv ht = absurd (omega arith)
quo-FloorsTo (pos x) (pos y) k p hv ht =
    let (low, high) = floor_units x y k (omega arith) p in
    record {
      quotient = x / y;
      multiple = ap pos (omega arith);
      below = omega arith;
      close = ground arith;
    }

*ℤ-nonneg : (v : ℤ) (k : ℕ) → pos 0 ≤ℤ v → pos 0 ≤ℤ v *ℤ pos k
unfolding ◌*ℤ◌
*ℤ-nonneg (pos n) k h = omega arith
*ℤ-nonneg (negsuc n) k h = absurd (omega arith)

*ℤ-pos : (v : ℤ) (k : ℕ) → 0 < k → pos 0 <ℤ v → pos 0 <ℤ v *ℤ pos k
unfolding ◌*ℤ◌
*ℤ-pos (pos n) k p h = omega (arith, mul-pos {m = n} {n = k} (omega arith) p)
*ℤ-pos (negsuc n) k p h = absurd (omega arith)

pub sign-nonneg : (v : ℤ) → is_lt (sign_ℤ v) ≡ false → pos 0 ≤ℤ v
sign-nonneg v h = ground arith

pub sign-pos : (v : ℤ) → is_gt (sign_ℤ v) ≡ true → pos 0 <ℤ v
sign-pos v h = ground arith

-- The signs carry over to the normalized coefficients.
pub normalize_nonneg : (d : Decimal) → is_lt (sign d) ≡ false → pos 0 ≤ℤ coefficient (normalize d)
normalize_nonneg d h =
    sign-nonneg _ (ap is_lt (sym (sign-coefficient (normalize d)) ∙ sign-normalize d) ∙ h)

pub normalize_pos : (d : Decimal) → is_gt (sign d) ≡ true → pos 0 <ℤ coefficient (normalize d)
normalize_pos d h =
    sign-pos _ (ap is_gt (sym (sign-coefficient (normalize d)) ∙ sign-normalize d) ∙ h)

floored-FloorsTo :
    (d step : Decimal) (n : ℕ)
    → d.scale ≤ n
    → step.scale ≤ n
    → pos 0 ≤ℤ coefficient d
    → pos 0 <ℤ coefficient step
    → FloorsTo (coeff_at n d) (coeff_at n step) (coeff_at n (floored d step))
unfolding floored
floored-FloorsTo d step n h k hd hs =
    let m : ℕ = larger step.scale d.scale in
    let (p, q, _) = larger_bounds step.scale d.scale in
    let fits : m ≤ n = larger_le step.scale d.scale n k h in
    let v = widen (coefficient d) d.scale m in
    let t = widen (coefficient step) step.scale m in
    let ev : v ≡ coeff_at m d = widen-coeff (coefficient d) d.scale m q in
    let et : t ≡ coeff_at m step = widen-coeff (coefficient step) step.scale m p in
    rw
      (
        coeff-normalize-some (quo v t *ℤ t) m n fits,
        ← coeff-finer d m n q fits,
        ← coeff-finer step m n p fits,
        ← ev,
        ← et,
      )
      (quo-FloorsTo v t (10 ^ (n - m)) (pow_pos _)
        (rw ev (*ℤ-nonneg (coefficient d) (10 ^ (m - d.scale)) hd))
        (rw et (*ℤ-pos (coefficient step) (10 ^ (m - step.scale)) (pow_pos _) hs)))

-- `FloorToStep` of a value that is not negative, by a positive step: the result is a multiple of
-- the step, not above the value, and less than a step below it.
pub floor_to_step-FloorsTo :
    (d step : Decimal) (n : ℕ)
    → d.scale ≤ n
    → step.scale ≤ n
    → is_lt (sign d) ≡ false
    → is_gt (sign step) ≡ true
    → (r : Decimal) × (floor_to_step d step ≡ ok r)
      × FloorsTo (coeff_at n d) (coeff_at n step) (coeff_at n r)
unfolding floor_to_step
floor_to_step-FloorsTo d step n h k hd hs = (
  floored (normalize d) (normalize step),
  ground (arith, sign-normalize d, sign-normalize step),
  rw (← coeff-normalize d n h, ← coeff-normalize step n k)
      (floored-FloorsTo (normalize d) (normalize step) n (omega (arith, scale-normalize d))
        (omega (arith, scale-normalize step)) (normalize_nonneg d hd) (normalize_pos step hs)),
)

-- The errors of `FloorToStep`: a step that is not positive, and otherwise a negative value.
pub floor_to_step_errors :
    (d step : Decimal)
    → (is_gt (sign step) ≡ false → floor_to_step d step ≡ err bad_step)
      × (is_gt (sign step) ≡ true → is_lt (sign d) ≡ true → floor_to_step d step ≡ err negative)
unfolding floor_to_step
floor_to_step_errors d step = (
  λ h. ground (arith, sign-normalize step),
  λ h k. ground (arith, sign-normalize d, sign-normalize step),
)
