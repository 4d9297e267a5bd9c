-- ===== src/Decimal/Order.antt =====
-- The order that `Cmp` of internal/decimal/decimal.go decides: that of the integers in units of
-- 10^-n.
use joinanny.Base.{ℕ, ◌+◌, ◌≤◌, ◌≡◌, ◌↔◌, true, false, arith}
use joinanny.Base.Int.{pos, ◌≤ℤ◌, ◌<ℤ◌}
use joinanny.Decimal.{Decimal, cmp, is_gt, is_lt, is_positive, sign}
use joinanny.Decimal.Scale.{coeff_at, cmp-coeff}
use joinanny.Decimal.Division.{sign-coeff_at}

-- `a.Cmp(b) <= 0`
abbrev pub AtMost : Decimal → Decimal → Type 0
AtMost a b = is_gt (cmp a b) ≡ false

-- `a.Cmp(b) < 0`
abbrev pub Below : Decimal → Decimal → Type 0
Below a b = is_lt (cmp a b) ≡ true

module _ (a b : Decimal) (n : ℕ) (fa : a.scale ≤ n) (fb : b.scale ≤ n) where
  pub AtMost-iff : AtMost a b ↔ (coeff_at n a ≤ℤ coeff_at n b)
  AtMost-iff =
      (λ h. ground (arith, cmp-coeff a b n fa fb), λ h. ground (arith, cmp-coeff a b n fa fb))

  pub Below-iff : Below a b ↔ (coeff_at n a <ℤ coeff_at n b)
  Below-iff =
      (λ h. ground (arith, cmp-coeff a b n fa fb), λ h. ground (arith, cmp-coeff a b n fa fb))

  pub not_lt→le : is_lt (cmp a b) ≡ false → coeff_at n b ≤ℤ coeff_at n a
  not_lt→le h = ground (arith, cmp-coeff a b n fa fb)

  pub gt→lt : is_gt (cmp a b) ≡ true → coeff_at n b <ℤ coeff_at n a
  gt→lt h = ground (arith, cmp-coeff a b n fa fb)

-- `Cmp` orders the decimals totally: it is transitive.
pub AtMost-trans : (a b c : Decimal) → AtMost a b → AtMost b c → AtMost a c
AtMost-trans a b c h k =
    let n : ℕ = a.scale + b.scale + c.scale in
    let fa : a.scale ≤ n = omega arith in
    let fb : b.scale ≤ n = omega arith in
    let fc : c.scale ≤ n = omega arith in
    (AtMost-iff a c n fa fc).1
      (omega (arith, (AtMost-iff a b n fa fb).0 h, (AtMost-iff b c n fb fc).0 k))

pub AtMost-self : (a : Decimal) → AtMost a a
AtMost-self a = (AtMost-iff a a a.scale (omega arith) (omega arith)).1 (omega arith)

-- The sign, read in any unit.
pub nonneg-coeff : (d : Decimal) (n : ℕ) → is_lt (sign d) ≡ false → pos 0 ≤ℤ coeff_at n d
nonneg-coeff d n h = ground (arith, sign-coeff_at d n)

pub coeff-nonneg : (d : Decimal) (n : ℕ) → pos 0 ≤ℤ coeff_at n d → is_lt (sign d) ≡ false
coeff-nonneg d n h = ground (arith, sign-coeff_at d n)

pub pos-coeff : (d : Decimal) (n : ℕ) → is_positive d ≡ true → pos 0 <ℤ coeff_at n d
unfolding is_positive
pos-coeff d n h = ground (arith, sign-coeff_at d n)

pub Below-AtMost : (a b : Decimal) → Below a b → AtMost a b
Below-AtMost a b h = ground arith
