-- ===== src/Decimal/Normal.antt =====
-- The form that `normalize` of internal/decimal/decimal.go gives: no trailing zero after the point.
-- Two decimals of one value have one such form, so the laws of arithmetic hold as equations.
use Prim.Native.Nat.{Ordering}
use native.Mathlib.Nat.{eq_of_mul-eq-mul_right, pow-suc, mul_assoc, mul-mod_left}
use native.Mathlib.Decide.{dec_lt}
use joinanny.Base.{
  ℕ, zero, suc, ◌+◌, ◌-◌, ◌*◌, ◌%◌, ◌^◌, ◌≤◌, ◌<◌, ◌≡◌, ◌≢◌, refl, sym, ap, ◌∙◌, ◌⊎◌, inl, inr, ◌↔◌,
  true, false, Option, none, some, arith, Bool-cases,
}
use joinanny.Base.Int.{
  ℤ, pos, negsuc, minus, pos_part, neg_part, ◌*ℤ◌, quo, rem, *ℤ-pos_parts, eq_of_parts,
}
use joinanny.Decimal.{
  Decimal, coefficient, strip, normalize_value, normalize, is_eq, sign_ℤ, cmp_ℤ, cmp, equal,
}
use joinanny.Decimal.Scale.{coeff_at, pow_add, pow_pos, coeff-normalize, scale-normalize, cmp-coeff}

abbrev pub magnitude : ℤ → ℕ
magnitude v = pos_part v + neg_part v

-- A coefficient is there, and it does not end in 0 after the point.
abbrev pub IsNormal : Decimal → Type 0
IsNormal d =
    (d.value ≡ some (coefficient d)) × ((d.scale ≡ 0) ⊎ (magnitude (coefficient d) % 10 ≢ 0))

sign-minus : (n : ℕ) → is_eq (sign_ℤ (minus n)) ≡ false → n ≢ 0
sign-minus zero h = cc
sign-minus (suc n) h = omega arith

rem-magnitude : (v : ℤ) → is_eq (sign_ℤ (rem v (pos 10))) ≡ false → magnitude v % 10 ≢ 0
unfolding rem
rem-magnitude (pos n) h = ground arith
rem-magnitude (negsuc n) h = omega (arith, sign-minus (suc n % 10) h)

strip-IsNormal : (v : ℤ) (s : ℕ) → IsNormal (strip v s)
unfolding strip
strip-IsNormal v zero = (refl, inl refl)
strip-IsNormal v (suc s) = elim (Bool-cases (is_eq (sign_ℤ (rem v (pos 10))))) [
  | inl z ↦ rw z (strip-IsNormal (quo v (pos 10)) s)
  | inr nz ↦ rw nz (refl, inr (rem-magnitude v nz))
]

normalize_value-IsNormal : (o : Option ℤ) (s : ℕ) → IsNormal (normalize_value o s)
unfolding normalize_value
normalize_value-IsNormal none s = (refl, inl refl)
normalize_value-IsNormal (some v) s = elim (Bool-cases (is_eq (sign_ℤ v))) [
  | inl z ↦ rw z (refl, inl refl)
  | inr nz ↦ rw nz (strip-IsNormal v s)
]

-- `normalize` gives the normal form, never a nil coefficient.
pub normalize-IsNormal : (d : Decimal) → IsNormal (normalize d)
unfolding normalize
normalize-IsNormal d = normalize_value-IsNormal d.value d.scale

magnitude-*ℤ : (v : ℤ) (k : ℕ) → magnitude (v *ℤ pos k) ≡ magnitude v * k
magnitude-*ℤ v k = omega (arith, *ℤ-pos_parts v k)

-- A coefficient at a smaller scale, of the same value, is a multiple of ten.
not_smaller : (x y s t n : ℕ) → s < t → t ≤ n → x * 10 ^ (n - s) ≡ y * 10 ^ (n - t) → y % 10 ≡ 0
not_smaller x y s t n l h e =
    let split : n - s ≡ suc (t - suc s) + (n - t) = omega arith in
    let product : x * 10 ^ suc (t - suc s) * 10 ^ (n - t) ≡ y * 10 ^ (n - t) =
      mul_assoc x (10 ^ suc (t - suc s)) (10 ^ (n - t))
      ∙ ap (λ u. x * u) (sym (pow_add (suc (t - suc s)) (n - t)))
      ∙ ap (λ u. x * 10 ^ u) (sym split)
      ∙ e in
    let same : x * 10 ^ suc (t - suc s) ≡ y =
      eq_of_mul-eq-mul_right (10 ^ (n - t)) (pow_pos (n - t)) _ _ product in
    ap (λ u. u % 10)
      (sym same
        ∙ ap (λ u. x * u) (pow-suc 10 (t - suc s))
        ∙ sym (mul_assoc x (10 ^ (t - suc s)) 10))
    ∙ mul-mod_left (x * 10 ^ (t - suc s)) 10

IsNormal-scale_le :
    (a b : Decimal) (n : ℕ)
    → a.scale ≤ n
    → b.scale ≤ n
    → IsNormal b
    → coeff_at n a ≡ coeff_at n b
    → b.scale ≤ a.scale
IsNormal-scale_le a b n h k (_, shape) e = elim (dec_lt a.scale b.scale) [
  | no small ↦ omega arith
  | yes big ↦
      let tens : magnitude (coefficient b) % 10 ≡ 0 =
        not_smaller (magnitude (coefficient a)) (magnitude (coefficient b)) a.scale b.scale n big k
          (sym (magnitude-*ℤ (coefficient a) _)
            ∙ ap magnitude e
            ∙ magnitude-*ℤ (coefficient b) _) in
      omega arith
]

*ℤ-cancel : (v w : ℤ) (k : ℕ) → 0 < k → v *ℤ pos k ≡ w *ℤ pos k → v ≡ w
*ℤ-cancel v w k h e =
    let (p, q) = *ℤ-pos_parts v k in
    let (r, s) = *ℤ-pos_parts w k in
    let pos_eq : pos_part v ≡ pos_part w =
      eq_of_mul-eq-mul_right k h _ _ (sym p ∙ ap pos_part e ∙ r) in
    let neg_eq : neg_part v ≡ neg_part w =
      eq_of_mul-eq-mul_right k h _ _ (sym q ∙ ap neg_part e ∙ s) in
    eq_of_parts v w (omega arith)

-- A value has one normal form.
pub IsNormal-unique :
    (a b : Decimal) (n : ℕ)
    → a.scale ≤ n
    → b.scale ≤ n
    → IsNormal a
    → IsNormal b
    → coeff_at n a ≡ coeff_at n b
    → a ≡ b
IsNormal-unique a b n h k na nb e =
    let p = IsNormal-scale_le a b n h k nb e in
    let q = IsNormal-scale_le b a n k h na (sym e) in
    let scales : a.scale ≡ b.scale = omega arith in
    let v : coefficient a ≡ coefficient b =
      *ℤ-cancel (coefficient a) (coefficient b) (10 ^ (n - a.scale)) (pow_pos _)
        (e ∙ ap (λ s. coefficient b *ℤ pos (10 ^ (n - s))) (sym scales)) in
    let values : a.value ≡ b.value = na.0 ∙ ap some v ∙ sym nb.0 in
    (λ i. record { value = values i; scale = scales i })

-- `normalize` gives one result for each value: two decimals of one value in some unit have the same.
pub normalize_unique :
    (a b : Decimal) (n : ℕ)
    → a.scale ≤ n
    → b.scale ≤ n
    → coeff_at n a ≡ coeff_at n b
    → normalize a ≡ normalize b
normalize_unique a b n h k e =
    IsNormal-unique (normalize a) (normalize b) n (omega (arith, scale-normalize a))
      (omega (arith, scale-normalize b)) (normalize-IsNormal a) (normalize-IsNormal b)
      (coeff-normalize a n h ∙ e ∙ sym (coeff-normalize b n k))

is_eq-true : (o : Ordering) → is_eq o ≡ true → o ≡ Ordering.eq
is_eq-true o h = ground arith

cmp_ℤ-eq : (v w : ℤ) → cmp_ℤ v w ≡ Ordering.eq → v ≡ w
cmp_ℤ-eq v w h = eq_of_parts v w (ground arith)

cmp_ℤ_self : (v : ℤ) → cmp_ℤ v v ≡ Ordering.eq
cmp_ℤ_self v = ground arith

-- `Equal` decides that the two decimals have the same normal form.
pub equal_iff : (a b : Decimal) → (equal a b ≡ true) ↔ (normalize a ≡ normalize b)
unfolding equal
equal_iff a b =
    let n : ℕ = a.scale + b.scale in
    let c : cmp a b ≡ cmp_ℤ (coeff_at n a) (coeff_at n b) =
      cmp-coeff a b n (omega arith) (omega arith) in
    (
      λ h.
          normalize_unique a b n (omega arith) (omega arith)
            (cmp_ℤ-eq _ _ (sym c ∙ is_eq-true _ h)),
      λ e.
          let same : coeff_at n a ≡ coeff_at n b =
            sym (coeff-normalize a n (omega arith))
            ∙ ap (coeff_at n) e
            ∙ coeff-normalize b n (omega arith) in
          ap is_eq (c ∙ ap (λ u. cmp_ℤ u (coeff_at n b)) same ∙ cmp_ℤ_self (coeff_at n b)),
    )
