-- ===== src/Decimal/Arithmetic.antt =====
-- The operations of internal/decimal/decimal.go compute the exact values: read in any unit 10^-n
-- that is fine enough, they are those of the integers.
use native.Mathlib.Nat.{mul-mul-mul_comm, mul-zero, zero-mul}
use joinanny.Base.{ℕ, zero, suc, ◌+◌, ◌-◌, ◌*◌, ◌^◌, ◌≤◌, ◌≡◌, refl, sym, ap, ◌∙◌, some, arith}
use joinanny.Base.Int.{
  ℤ, pos, negsuc, minus, ◌+ℤ◌, ◌-ℤ◌, ◌*ℤ◌, neg as neg_ℤ, *ℤ-pos_parts, +ℤ_parts, -ℤ_parts,
  eq_of_parts, int_laws, neg_parts,
}
use joinanny.Decimal.{Decimal, coefficient, normalize, align, common_scale, add, sub, mul, neg}
use joinanny.Decimal.Scale.{
  coeff_at, pow_add, coeff-normalize, coeff-normalize-some, minus-*ℤ, scale-normalize,
  common_scale_bounds, align-finer,
}

pub +ℤ-*ℤ : (a b : ℤ) (k : ℕ) → (a +ℤ b) *ℤ pos k ≡ a *ℤ pos k +ℤ b *ℤ pos k
+ℤ-*ℤ a b k = omega (
  int_laws,
  *ℤ-pos_parts (a +ℤ b) k,
  *ℤ-pos_parts a k,
  *ℤ-pos_parts b k,
  ap (λ (t : ℕ). t * k) (+ℤ_parts a b),
)

pub -ℤ-*ℤ : (a b : ℤ) (k : ℕ) → (a -ℤ b) *ℤ pos k ≡ a *ℤ pos k -ℤ b *ℤ pos k
-ℤ-*ℤ a b k = omega (
  int_laws,
  *ℤ-pos_parts (a -ℤ b) k,
  *ℤ-pos_parts a k,
  *ℤ-pos_parts b k,
  ap (λ (t : ℕ). t * k) (-ℤ_parts a b),
)

-- `Add` gives the sum of the two values, exactly, in every unit that is fine enough for both.
pub coeff-add :
    (a b : Decimal) (n : ℕ)
    → a.scale ≤ n
    → b.scale ≤ n
    → coeff_at n (add a b) ≡ coeff_at n a +ℤ coeff_at n b
unfolding add
coeff-add a b n h k =
    let (_, _, fits) = common_scale_bounds a b in
    let (p, q) = align-finer a b n h k in
    coeff-normalize-some ((align a b).0 +ℤ (align a b).1) (common_scale a b) n (fits n h k)
    ∙ +ℤ-*ℤ (align a b).0 (align a b).1 (10 ^ (n - common_scale a b))
    ∙ (λ i. p i +ℤ q i)

-- `Sub` gives the difference of the two values, exactly.
pub coeff-sub :
    (a b : Decimal) (n : ℕ)
    → a.scale ≤ n
    → b.scale ≤ n
    → coeff_at n (sub a b) ≡ coeff_at n a -ℤ coeff_at n b
unfolding sub
coeff-sub a b n h k =
    let (_, _, fits) = common_scale_bounds a b in
    let (p, q) = align-finer a b n h k in
    coeff-normalize-some ((align a b).0 -ℤ (align a b).1) (common_scale a b) n (fits n h k)
    ∙ -ℤ-*ℤ (align a b).0 (align a b).1 (10 ^ (n - common_scale a b))
    ∙ (λ i. p i -ℤ q i)

scale-normalize-some :
    (v : ℤ) (s n : ℕ) → s ≤ n → (normalize (record { value = some v; scale = s })).scale ≤ n
scale-normalize-some v s n h = omega (arith, scale-normalize (record { value = some v; scale = s }))

pub scale-add : (a b : Decimal) (n : ℕ) → a.scale ≤ n → b.scale ≤ n → (add a b).scale ≤ n
unfolding add
scale-add a b n h k =
    let (_, _, fits) = common_scale_bounds a b in
    scale-normalize-some ((align a b).0 +ℤ (align a b).1) (common_scale a b) n (fits n h k)

pub scale-sub : (a b : Decimal) (n : ℕ) → a.scale ≤ n → b.scale ≤ n → (sub a b).scale ≤ n
unfolding sub
scale-sub a b n h k =
    let (_, _, fits) = common_scale_bounds a b in
    scale-normalize-some ((align a b).0 -ℤ (align a b).1) (common_scale a b) n (fits n h k)

pos-*ℤ-minus : (a b : ℕ) → pos a *ℤ minus b ≡ minus (a * b)
unfolding ◌*ℤ◌
pos-*ℤ-minus a zero = rw mul-zero
pos-*ℤ-minus a (suc b) = refl

minus-*ℤ-minus : (a b : ℕ) → minus a *ℤ minus b ≡ pos (a * b)
unfolding ◌*ℤ◌
minus-*ℤ-minus zero zero = refl
minus-*ℤ-minus zero (suc b) = rw (zero-mul)
minus-*ℤ-minus (suc a) zero = rw (mul-zero)
minus-*ℤ-minus (suc a) (suc b) = refl

*ℤ-*ℤ_swap : (a b : ℤ) (j k : ℕ) → (a *ℤ b) *ℤ pos (j * k) ≡ (a *ℤ pos j) *ℤ (b *ℤ pos k)
unfolding ◌*ℤ◌
*ℤ-*ℤ_swap (pos a) (pos b) j k = ap pos (mul-mul-mul_comm a b j k)
*ℤ-*ℤ_swap (pos a) (negsuc b) j k =
    minus-*ℤ (a * suc b) (j * k)
    ∙ ap minus (mul-mul-mul_comm a (suc b) j k)
    ∙ sym (pos-*ℤ-minus (a * j) (suc b * k))
*ℤ-*ℤ_swap (negsuc a) (pos b) j k =
    minus-*ℤ (suc a * b) (j * k)
    ∙ ap minus (mul-mul-mul_comm (suc a) b j k)
    ∙ sym (minus-*ℤ (suc a * j) (b * k))
*ℤ-*ℤ_swap (negsuc a) (negsuc b) j k =
    ap pos (mul-mul-mul_comm (suc a) (suc b) j k) ∙ sym (minus-*ℤ-minus (suc a * j) (suc b * k))

-- `Mul` gives the product of the two values, exactly: of units 10^-m and 10^-n in the unit
-- 10^-(m + n).
pub coeff-mul :
    (a b : Decimal) (m n : ℕ)
    → a.scale ≤ m
    → b.scale ≤ n
    → coeff_at (m + n) (mul a b) ≡ coeff_at m a *ℤ coeff_at n b
unfolding mul
coeff-mul a b m n h k =
    let a' = normalize a in
    let b' = normalize b in
    let p : a'.scale ≤ a.scale = scale-normalize a in
    let q : b'.scale ≤ b.scale = scale-normalize b in
    let e : m + n - (a'.scale + b'.scale) ≡ (m - a'.scale) + (n - b'.scale) = omega arith in
    coeff-normalize-some (coefficient a' *ℤ coefficient b') (a'.scale + b'.scale) (m + n)
      (omega arith)
    ∙ rw (e, pow_add (m - a'.scale) (n - b'.scale))
        (*ℤ-*ℤ_swap (coefficient a') (coefficient b') (10 ^ (m - a'.scale)) (10 ^ (n - b'.scale)))
    ∙ (λ i. coeff-normalize a m h i *ℤ coeff-normalize b n k i)

neg_ℤ-*ℤ : (a : ℤ) (k : ℕ) → neg_ℤ a *ℤ pos k ≡ neg_ℤ (a *ℤ pos k)
neg_ℤ-*ℤ a k = eq_of_parts _ _ (
    rw
      (
        (*ℤ-pos_parts (neg_ℤ a) k).0,
        (*ℤ-pos_parts (neg_ℤ a) k).1,
        (neg_parts (a *ℤ pos k)).0,
        (neg_parts (a *ℤ pos k)).1,
        (neg_parts a).0,
        (neg_parts a).1,
        (*ℤ-pos_parts a k).0,
        (*ℤ-pos_parts a k).1,
      )
      refl)

-- `Neg` gives the opposite value.
pub coeff-neg : (d : Decimal) (n : ℕ) → d.scale ≤ n → coeff_at n (neg d) ≡ neg_ℤ (coeff_at n d)
unfolding neg
coeff-neg d n h =
    let d' = normalize d in
    let p : d'.scale ≤ d.scale = scale-normalize d in
    coeff-normalize-some (neg_ℤ (coefficient d')) d'.scale n (omega arith)
    ∙ neg_ℤ-*ℤ (coefficient d') (10 ^ (n - d'.scale))
    ∙ ap neg_ℤ (coeff-normalize d n h)

pub scale-neg : (d : Decimal) (n : ℕ) → d.scale ≤ n → (neg d).scale ≤ n
unfolding neg
scale-neg d n h =
    scale-normalize-some (neg_ℤ (coefficient (normalize d))) (normalize d).scale n
      (omega (arith, scale-normalize d))
