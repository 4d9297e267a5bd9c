-- ===== src/Decimal.antt =====
-- internal/decimal/decimal.go: exact decimals, a big integer coefficient and a number of decimal
-- places. `value` is a pointer in the source, nil in a zero struct. The result of `Cmp` and `sign`,
-- -1, 0 or 1, is an `Ordering`.

pub mod Text
pub mod Scale
pub mod Arithmetic
pub mod Division
pub mod Quotient
pub mod Order
pub mod Normal
use Prim.Native.Nat.{compare, Ordering}
use joinanny.Base.{
  ℕ, zero, suc, ◌+◌, ◌-◌, ◌^◌, Bool, true, false, Option, none, some, ltb, if◌then◌else◌,
}
use joinanny.Base.Int.{
  ℤ, pos, pos_part, neg_part, ◌+ℤ◌, ◌-ℤ◌, ◌*ℤ◌, neg as neg_ℤ, abs as abs_ℤ, quo, rem,
}

pub record Decimal : Type 0 where
  pub value : Option ℤ
  pub scale : ℕ

pub data DecimalError : Type 0 where
  division_by_zero bad_step negative : DecimalError

pub data Result (A : Type 0) : Type 0 where
  ok : A → Result A
  err : DecimalError → Result A

-- `Zero`.
abbrev pub decimal_zero : Decimal
decimal_zero = record { value = some (pos 0); scale = 0 }

abbrev pub new_from_int : ℤ → Decimal
new_from_int v = record { value = some v; scale = 0 }

-- `big.Int.Cmp` and `big.Int.Sign`.
abbrev pub cmp_ℤ : ℤ → ℤ → Ordering
cmp_ℤ a b = compare (pos_part a + neg_part b) (pos_part b + neg_part a)

abbrev pub sign_ℤ : ℤ → Ordering
sign_ℤ a = cmp_ℤ a (pos 0)

abbrev pub is_lt : Ordering → Bool
is_lt Ordering.lt = true
is_lt _ = false

abbrev pub is_eq : Ordering → Bool
is_eq Ordering.eq = true
is_eq _ = false

abbrev pub is_gt : Ordering → Bool
is_gt Ordering.gt = true
is_gt _ = false

abbrev pub not_positive : Ordering → Bool
not_positive Ordering.gt = false
not_positive _ = true

-- The value behind the pointer; every caller but `sign` has normalized first, so it is not nil.
abbrev pub coefficient : Decimal → ℤ
coefficient d = elim d.value [ none ↦ pos 0 | some v ↦ v ]

unfoldable pub sign : Decimal → Ordering
sign d = elim d.value [ none ↦ Ordering.eq | some v ↦ sign_ℤ v ]

abbrev pub pow10 : ℕ → ℕ
pow10 k = 10 ^ k

-- The loop of `normalize`: it drops trailing zeros of the fraction.
unfoldable pub strip : ℤ → ℕ → Decimal
strip v zero = record { value = some v; scale = 0 }
strip v (suc s) =
    let rest = strip (quo v (pos 10)) s in
    if is_eq (sign_ℤ (rem v (pos 10))) then rest else record { value = some v; scale = suc s }

unfoldable pub normalize_value : Option ℤ → ℕ → Decimal
unfolding strip quo rem
normalize_value none s = decimal_zero
normalize_value (some v) s = if is_eq (sign_ℤ v) then decimal_zero else strip v s

unfoldable pub normalize : Decimal → Decimal
unfolding normalize_value
normalize d = normalize_value d.value d.scale

-- The body of `align` behind the two calls of `normalize`.
unfoldable pub align_normal : Decimal → Decimal → ℤ × ℤ
unfolding ◌*ℤ◌
align_normal a b =
    if ltb b.scale a.scale
    then (coefficient a, coefficient b *ℤ pos (pow10 (a.scale - b.scale)))
    else if ltb a.scale b.scale
    then (coefficient a *ℤ pos (pow10 (b.scale - a.scale)), coefficient b)
    else (coefficient a, coefficient b)

unfoldable pub align : Decimal → Decimal → ℤ × ℤ
unfolding align_normal normalize
align a b = align_normal (normalize a) (normalize b)

unfoldable pub larger : ℕ → ℕ → ℕ
larger m n = if ltb n m then m else n

unfoldable pub common_scale : Decimal → Decimal → ℕ
unfolding larger normalize
common_scale a b = larger (normalize a).scale (normalize b).scale

unfoldable pub cmp : Decimal → Decimal → Ordering
unfolding align
cmp a b = let (left, right) = align a b in cmp_ℤ left right

unfoldable pub equal : Decimal → Decimal → Bool
unfolding cmp
equal a b = is_eq (cmp a b)

unfoldable pub is_zero : Decimal → Bool
unfolding sign
is_zero d = is_eq (sign d)

unfoldable pub is_positive : Decimal → Bool
unfolding sign
is_positive d = is_gt (sign d)

unfoldable pub neg : Decimal → Decimal
unfolding normalize neg_ℤ
neg d =
    let d' = normalize d in
    normalize (record { value = some (neg_ℤ (coefficient d')); scale = d'.scale })

unfoldable pub abs : Decimal → Decimal
unfolding normalize abs_ℤ
abs d =
    let d' = normalize d in
    if is_lt (sign_ℤ (coefficient d'))
    then normalize (record { value = some (abs_ℤ (coefficient d')); scale = d'.scale })
    else d'

unfoldable pub mul : Decimal → Decimal → Decimal
unfolding normalize ◌*ℤ◌
mul d other =
    let d' = normalize d in
    let other' = normalize other in
    normalize (record {
      value = some (coefficient d' *ℤ coefficient other');
      scale = d'.scale + other'.scale;
    })

unfoldable pub add : Decimal → Decimal → Decimal
unfolding normalize align common_scale ◌+ℤ◌
add d other =
    let (left, right) = align d other in
    normalize (record { value = some (left +ℤ right); scale = common_scale d other })

unfoldable pub sub : Decimal → Decimal → Decimal
unfolding normalize align common_scale ◌-ℤ◌
sub d other =
    let (left, right) = align d other in
    normalize (record { value = some (left -ℤ right); scale = common_scale d other })

-- `QuoFloor`. The scale is a natural number, so the guard against a negative one has no model.
unfoldable pub quo_floor : Decimal → Decimal → ℕ → Result Decimal
quo_floor d divisor places =
    let d' = normalize d in
    let divisor' = normalize divisor in
    if is_eq (sign divisor')
    then err division_by_zero
    else ok (
        normalize (record {
          value = some (
              quo (coefficient d' *ℤ pos (pow10 (divisor'.scale + places)))
                (coefficient divisor' *ℤ pos (pow10 d'.scale)));
          scale = places;
        }))

-- A coefficient at the larger of two scales.
unfoldable pub widen : ℤ → ℕ → ℕ → ℤ
widen v own target = if ltb own target then v *ℤ pos (pow10 (target - own)) else v

-- The part of `FloorToStep` behind its two guards.
unfoldable pub floored : Decimal → Decimal → Decimal
floored d step =
    let scale = larger step.scale d.scale in
    let step_value = widen (coefficient step) step.scale scale in
    normalize (record {
      value = some (quo (widen (coefficient d) d.scale scale) step_value *ℤ step_value);
      scale = scale;
    })

unfoldable pub floor_to_step : Decimal → Decimal → Result Decimal
floor_to_step d step =
    if not_positive (sign (normalize step))
    then err bad_step
    else if is_lt (sign (normalize d))
    then err negative
    else ok (floored (normalize d) (normalize step))
