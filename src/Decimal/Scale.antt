-- ===== src/Decimal/Scale.antt =====
-- Decimals of internal/decimal/decimal.go as integers in units of 10^-n: the meaning that every
-- operation has to keep, for any n that is fine enough.
use Prim.Native.Nat.{compare}
use native.Mathlib.Nat.{pow-suc, one-le-pow, mul_assoc, mul-one, mul-lt-mul_of_pos_right}
use native.Mathlib.Nat.{zero-mul, add-zero, add-mul}
use joinanny.Base.{
  ℕ, zero, suc, ◌+◌, ◌-◌, ◌*◌, ◌/◌, ◌%◌, ◌^◌, ◌≤◌, ◌<◌, ◌≡◌, refl, sym, ap, ◌∙◌, ◌⊎◌, inl, inr,
  true, Option, none, some, arith, ltb, Bool-cases,
}
use joinanny.Base.Int.{
  ℤ, pos, negsuc, pos_part, neg_part, minus, ◌*ℤ◌, quo, rem, *ℤ-pos_parts, eq_of_parts,
}
use joinanny.Decimal.{
  Decimal, cmp_ℤ, sign_ℤ, is_eq, coefficient, strip, normalize_value, normalize, align_normal,
  align, larger, common_scale, cmp,
}

-- The value of `d` in units of 10^-n.
abbrev pub coeff_at : ℕ → Decimal → ℤ
coeff_at n d = coefficient d *ℤ pos (10 ^ (n - d.scale))

pub pow_add : (a b : ℕ) → 10 ^ (a + b) ≡ 10 ^ a * 10 ^ b
pow_add a zero = rw (add-zero, mul-one)
pow_add a (suc b) =
    let e : a + suc b ≡ suc (a + b) = omega arith in
    rw (e, pow-suc 10 (a + b), pow-suc 10 b, pow_add a b) (mul_assoc (10 ^ a) (10 ^ b) 10)

pub pow_pos : (n : ℕ) → 0 < 10 ^ n
pow_pos n = one-le-pow n 10 (omega arith)

pub *ℤ-one : (v : ℤ) → v *ℤ pos 1 ≡ v
*ℤ-one v = omega (arith, *ℤ-pos_parts v 1, eq_of_parts (v *ℤ pos 1) v)

-- Two numbers that are not negative, multiplied one after the other.
pub *ℤ-*ℤ_pos : (v : ℤ) (j k : ℕ) → v *ℤ pos j *ℤ pos k ≡ v *ℤ pos (j * k)
*ℤ-*ℤ_pos v j k = eq_of_parts _ _ (
    rw
      (
        (*ℤ-pos_parts (v *ℤ pos j) k).0,
        (*ℤ-pos_parts (v *ℤ pos j) k).1,
        (*ℤ-pos_parts v j).0,
        (*ℤ-pos_parts v j).1,
        (*ℤ-pos_parts v (j * k)).0,
        (*ℤ-pos_parts v (j * k)).1,
      )
      (omega arith))

pub minus-*ℤ : (n k : ℕ) → minus n *ℤ pos k ≡ minus (n * k)
unfolding ◌*ℤ◌
minus-*ℤ zero k = rw zero-mul
minus-*ℤ (suc n) k = refl

sign-minus : (n : ℕ) → is_eq (sign_ℤ (minus n)) ≡ true → n ≡ 0
sign-minus zero h = refl
sign-minus (suc n) h = ground arith

-- Dividing by ten and multiplying again gives the value back where no digit was dropped.
quo-mul_ten : (v : ℤ) → is_eq (sign_ℤ (rem v (pos 10))) ≡ true → quo v (pos 10) *ℤ pos 10 ≡ v
unfolding quo rem
quo-mul_ten (pos n) h = unfold ◌*ℤ◌ in ap pos (ground arith)
quo-mul_ten (negsuc n) h =
    let e : suc n / 10 * 10 ≡ suc n = omega (arith, sign-minus (suc n % 10) h) in
    minus-*ℤ (suc n / 10) 10 ∙ ap minus e

strip-coeff : (v : ℤ) (s n : ℕ) → s ≤ n → coeff_at n (strip v s) ≡ v *ℤ pos (10 ^ (n - s))
unfolding strip
strip-coeff v zero n h = refl
strip-coeff v (suc s) n h = elim (Bool-cases (is_eq (sign_ℤ (rem v (pos 10))))) [
  | inl zero_digit ↦
      rw zero_digit (strip-coeff (quo v (pos 10)) s n (omega arith) ∙ one_digit zero_digit)
  | inr last ↦ rw last
]
  where
    one_digit :
        is_eq (sign_ℤ (rem v (pos 10))) ≡ true
        → quo v (pos 10) *ℤ pos (10 ^ (n - s)) ≡ v *ℤ pos (10 ^ (n - suc s))
    one_digit z =
        let e : n - s ≡ 1 + (n - suc s) = omega arith in
        rw (e, pow_add 1 (n - suc s), ← *ℤ-*ℤ_pos (quo v (pos 10)) (10 ^ 1) (10 ^ (n - suc s)))
          (ap (λ u. u *ℤ pos (10 ^ (n - suc s))) (quo-mul_ten v z))

pub sign-zero : (v : ℤ) → is_eq (sign_ℤ v) ≡ true → v ≡ pos 0
sign-zero (pos n) h = ap pos (ground arith)
sign-zero (negsuc n) h = ground arith

pub zero-*ℤ : (k : ℕ) → pos 0 *ℤ pos k ≡ pos 0
unfolding ◌*ℤ◌
zero-*ℤ k = rw zero-mul

normalize_value-coeff :
    (o : Option ℤ) (s n : ℕ)
    → s ≤ n
    → coeff_at n (normalize_value o s) ≡ coeff_at n (record { value = o; scale = s })
unfolding normalize_value
normalize_value-coeff none s n h = zero-*ℤ _ ∙ sym (zero-*ℤ _)
normalize_value-coeff (some v) s n h = elim (Bool-cases (is_eq (sign_ℤ v))) [
  | inl z ↦ rw (z, sign-zero v z) (zero-*ℤ _ ∙ sym (zero-*ℤ _))
  | inr nz ↦ rw nz (strip-coeff v s n h)
]

-- Normalizing keeps the value.
pub coeff-normalize : (d : Decimal) (n : ℕ) → d.scale ≤ n → coeff_at n (normalize d) ≡ coeff_at n d
unfolding normalize
coeff-normalize d n h = normalize_value-coeff d.value d.scale n h

pub coeff-normalize-some :
    (v : ℤ) (s n : ℕ)
    → s ≤ n
    → coeff_at n (normalize (record { value = some v; scale = s })) ≡ v *ℤ pos (10 ^ (n - s))
coeff-normalize-some v s n h = coeff-normalize (record { value = some v; scale = s }) n h

strip-scale : (v : ℤ) (s : ℕ) → (strip v s).scale ≤ s
unfolding strip
strip-scale v zero = omega arith
strip-scale v (suc s) = ground (arith, strip-scale (quo v (pos 10)) s)

normalize_value-scale : (o : Option ℤ) (s : ℕ) → (normalize_value o s).scale ≤ s
unfolding normalize_value
normalize_value-scale none s = omega arith
normalize_value-scale (some v) s = ground (arith, strip-scale v s)

-- Normalizing adds no decimal places.
pub scale-normalize : (d : Decimal) → (normalize d).scale ≤ d.scale
unfolding normalize
scale-normalize d = normalize_value-scale d.value d.scale

-- A finer unit multiplies the integer by a power of ten.
pub coeff-finer :
    (d : Decimal) (m n : ℕ)
    → d.scale ≤ m
    → m ≤ n
    → coeff_at m d *ℤ pos (10 ^ (n - m)) ≡ coeff_at n d
coeff-finer d m n h k =
    let e : n - d.scale ≡ (m - d.scale) + (n - m) = omega arith in
    rw (e, pow_add (m - d.scale) (n - m)) (*ℤ-*ℤ_pos (coefficient d) _ _)

coeff_own : (d : Decimal) → coeff_at d.scale d ≡ coefficient d
coeff_own d = let e : d.scale - d.scale ≡ 0 = omega arith in rw e (*ℤ-one (coefficient d))

-- At the larger of the two scales, `align` gives both values in one unit.
align_normal-coeff :
    (a b : Decimal)
    → let m = larger a.scale b.scale in align_normal a b ≡ (coeff_at m a, coeff_at m b)
unfolding align_normal larger
align_normal-coeff a b = elim (Bool-cases (ltb b.scale a.scale)) [
  | inl more ↦ rw more (ap (λ u. (u, coeff_at a.scale b)) (sym (coeff_own a)))
  | inr upto ↦ rw upto (elim (Bool-cases (ltb a.scale b.scale)) [
    | inl less ↦ rw less (ap (λ u. (coeff_at b.scale a, u)) (sym (coeff_own b)))
    | inr same ↦
        let e : b.scale - a.scale ≡ 0 = ground arith in
        rw (same, coeff_own b, e, *ℤ-one (coefficient a))
  ])
]

pub larger_bounds :
    (m n : ℕ) → (m ≤ larger m n) × (n ≤ larger m n) × ((larger m n ≡ m) ⊎ (larger m n ≡ n))
unfolding larger
larger_bounds m n = ground arith

pub larger_le : (m n k : ℕ) → m ≤ k → n ≤ k → larger m n ≤ k
unfolding larger
larger_le m n k h h' = ground arith

-- `align` at a common unit.
pub align-coeff :
    (a b : Decimal)
    → let m = common_scale a b in align a b ≡ (coeff_at m (normalize a), coeff_at m (normalize b))
unfolding align common_scale
align-coeff a b = align_normal-coeff (normalize a) (normalize b)

pub common_scale_bounds :
    (a b : Decimal)
    → ((normalize a).scale ≤ common_scale a b)
      × ((normalize b).scale ≤ common_scale a b)
      × ((n : ℕ) → a.scale ≤ n → b.scale ≤ n → common_scale a b ≤ n)
unfolding common_scale
common_scale_bounds a b =
    let (p, q, r) = larger_bounds (normalize a).scale (normalize b).scale in
    (p, q, λ n h k. omega (arith, scale-normalize a, scale-normalize b, r))

-- The two numbers that `align` gives, brought to a finer unit, are the two values.
pub align-finer :
    (a b : Decimal) (n : ℕ)
    → a.scale ≤ n
    → b.scale ≤ n
    → let k = 10 ^ (n - common_scale a b) in
      ((align a b).0 *ℤ pos k ≡ coeff_at n a) × ((align a b).1 *ℤ pos k ≡ coeff_at n b)
align-finer a b n h k =
    let (p, q, r) = common_scale_bounds a b in
    let e = align-coeff a b in
    (
      ap (λ t. t.0 *ℤ pos (10 ^ (n - common_scale a b))) e
          ∙ coeff-finer (normalize a) (common_scale a b) n p (r n h k)
          ∙ coeff-normalize a n h,
      ap (λ t. t.1 *ℤ pos (10 ^ (n - common_scale a b))) e
          ∙ coeff-finer (normalize b) (common_scale a b) n q (r n h k)
          ∙ coeff-normalize b n k,
    )

-- Comparing does not depend on the unit.
compare-mul : (x y k : ℕ) → 0 < k → compare (x * k) (y * k) ≡ compare x y
compare-mul x y k h = ground (
  arith,
  λ (p : x < y). mul-lt-mul_of_pos_right p h,
  λ (p : y < x). mul-lt-mul_of_pos_right p h,
  λ (p : x ≡ y). ap (λ t. t * k) p,
)

pub cmp_ℤ-*ℤ : (a b : ℤ) (k : ℕ) → 0 < k → cmp_ℤ (a *ℤ pos k) (b *ℤ pos k) ≡ cmp_ℤ a b
cmp_ℤ-*ℤ a b k h =
    let (p, q) = *ℤ-pos_parts a k in
    let (r, s) = *ℤ-pos_parts b k in
    rw (p, q, r, s, ← add-mul (pos_part a) (neg_part b) k, ← add-mul (pos_part b) (neg_part a) k)
      (compare-mul (pos_part a + neg_part b) (pos_part b + neg_part a) k h)

-- `Cmp` compares the values, in whatever unit they are read.
pub cmp-coeff :
    (a b : Decimal) (n : ℕ)
    → a.scale ≤ n
    → b.scale ≤ n
    → cmp a b ≡ cmp_ℤ (coeff_at n a) (coeff_at n b)
unfolding cmp
cmp-coeff a b n h k =
    let (p, q) = align-finer a b n h k in
    rw (← p, ← q)
      (sym (cmp_ℤ-*ℤ (align a b).0 (align a b).1 (10 ^ (n - common_scale a b)) (pow_pos _)))
