-- ===== src/Decimal/Quotient.antt =====
-- `QuoFloor` of internal/decimal/decimal.go against the integers in units of 10^-n.
use native.Mathlib.Nat.{
  le_of_mul-le-mul_right, lt_of_mul-lt-mul_right, div-mul-le_self, lt-div-mul-add, mul-le-mul_right,
  mul-lt-mul_of_pos_right, mul-pos,
}
use joinanny.Base.{
  ℕ, suc, ◌+◌, ◌-◌, ◌*◌, ◌/◌, ◌^◌, ◌≤◌, ◌<◌, ◌≡◌, refl, sym, ap, ◌∙◌, true, false, some, arith,
}
use joinanny.Base.Int.{ℤ, pos, negsuc, ◌*ℤ◌, ◌≤ℤ◌, ◌<ℤ◌, quo}
use joinanny.Decimal.{Decimal, ok, coefficient, normalize, sign, is_lt, is_gt, quo_floor}
use joinanny.Decimal.Scale.{coeff_at, pow_add, pow_pos, coeff-normalize, scale-normalize}
use joinanny.Decimal.Division.{normalize_nonneg, normalize_pos, sign-normalize}

-- The quotient of x * 10^-s by y * 10^-t in units of 1/P, in the form that `QuoFloor` computes.
quotient_units :
    (x y a b c f p : ℕ)
    → 0 < y
    → 0 < a
    → 0 < f
    → a * b ≡ c * f
    → let q = x * (c * p) / (y * a) in (q * (y * f) ≤ x * b * p) × (x * b * p < q * (y * f) + y * f)
quotient_units x y a b c f p hy ha hf e =
    let q : ℕ = x * (c * p) / (y * a) in
    let low : q * (y * a) ≤ x * (c * p) = div-mul-le_self (x * (c * p)) (y * a) in
    let high : x * (c * p) < q * (y * a) + y * a = lt-div-mul-add (mul-pos hy ha) in
    let low' : q * (y * a) * f ≤ x * (c * p) * f = mul-le-mul_right f low in
    let high' : x * (c * p) * f < (q * (y * a) + y * a) * f = mul-lt-mul_of_pos_right high hf in
    let e' : x * p * (a * b) ≡ x * p * (c * f) = ap (λ t. x * p * t) e in
    (le_of_mul-le-mul_right {k = a} (omega arith) ha, lt_of_mul-lt-mul_right a (omega arith))

quotient_ints :
    (v t : ℤ) (a b c f p : ℕ)
    → 0 < a
    → 0 < f
    → a * b ≡ c * f
    → pos 0 ≤ℤ v
    → pos 0 <ℤ t
    → (q : ℕ) × (quo (v *ℤ pos (c * p)) (t *ℤ pos a) ≡ pos q)
      × (t *ℤ pos f *ℤ pos q ≤ℤ v *ℤ pos b *ℤ pos p)
      × (v *ℤ pos b *ℤ pos p <ℤ t *ℤ pos f *ℤ pos (suc q))
unfolding quo ◌*ℤ◌
quotient_ints (negsuc x) t a b c f p ha hf e hv ht = absurd (omega arith)
quotient_ints (pos x) (negsuc y) a b c f p ha hf e hv ht = absurd (omega arith)
quotient_ints (pos x) (pos y) a b c f p ha hf e hv ht =
    let (low, high) = quotient_units x y a b c f p (omega arith) ha hf e in
    (x * (c * p) / (y * a), refl, omega arith, omega arith)

-- `QuoFloor` of a value that is not negative by a positive one: the greatest multiple of
-- 10^-places whose product with the divisor does not pass the value.
pub quo_floor_greatest :
    (d divisor : Decimal) (places n : ℕ)
    → d.scale ≤ n
    → divisor.scale ≤ n
    → is_lt (sign d) ≡ false
    → is_gt (sign divisor) ≡ true
    → (q : ℕ) × (quo_floor d divisor places
        ≡ ok (normalize (record { value = some (pos q); scale = places })))
      × (coeff_at n divisor *ℤ pos q ≤ℤ coeff_at n d *ℤ pos (10 ^ places))
      × (coeff_at n d *ℤ pos (10 ^ places) <ℤ coeff_at n divisor *ℤ pos (suc q))
unfolding quo_floor
quo_floor_greatest d divisor places n h k hd hs =
    let d' = normalize d in
    let e' = normalize divisor in
    let p : d'.scale ≤ n = omega (arith, scale-normalize d) in
    let r : e'.scale ≤ n = omega (arith, scale-normalize divisor) in
    let powers : 10 ^ d'.scale * 10 ^ (n - d'.scale) ≡ 10 ^ e'.scale * 10 ^ (n - e'.scale) =
      sym (pow_add d'.scale (n - d'.scale))
      ∙ ap (λ u. 10 ^ u) (omega arith)
      ∙ pow_add e'.scale (n - e'.scale) in
    let (q, same, low, high) =
      quotient_ints (coefficient d') (coefficient e') (10 ^ d'.scale) (10 ^ (n - d'.scale))
        (10 ^ e'.scale) (10 ^ (n - e'.scale)) (10 ^ places) (pow_pos _) (pow_pos _) powers
        (normalize_nonneg d hd) (normalize_pos divisor hs) in
    let joined : quo (coefficient d' *ℤ pos (10 ^ (e'.scale + places)))
          (coefficient e' *ℤ pos (10 ^ d'.scale))
        ≡ pos q =
      rw (pow_add e'.scale places) same in
    (
      q,
      ground (arith, sign-normalize divisor, joined),
      rw (← coeff-normalize d n h, ← coeff-normalize divisor n k) low,
      rw (← coeff-normalize d n h, ← coeff-normalize divisor n k) high,
    )
