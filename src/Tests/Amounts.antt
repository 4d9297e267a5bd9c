-- ===== src/Tests/Amounts.antt =====
-- Amounts of internal/decimal/decimal.go at concrete values.
use joinanny.Base.{ℕ, suc, ◌^◌, ◌≡◌, refl, ◌↔◌, true, some, arith}
use joinanny.Base.Int.{pos, negsuc, ◌+ℤ◌, ◌*ℤ◌, ◌≤ℤ◌, ◌<ℤ◌}
use joinanny.Decimal.{
  Decimal, ok, cmp, cmp_ℤ, equal, normalize, add, sub, mul, sign, quo_floor, floor_to_step,
}
use joinanny.Decimal.Scale.{coeff_at}
use joinanny.Decimal.Arithmetic.{coeff-add}
use joinanny.Decimal.Normal.{normalize_unique, equal_iff}
use joinanny.Decimal.Division.{FloorsTo, floor_to_step-FloorsTo}
use joinanny.Decimal.Text.{parse, parsed, to_string}
use joinanny.Decimal.Text.RoundTrip.{parse-to_string}
use joinanny.Decimal.Quotient.{quo_floor_greatest}

-- 1.50, 1.5, -0.25 and the step 0.4.
abbrev one_fifty : Decimal
one_fifty = record { value = some (pos 150); scale = 2 }

abbrev one_five : Decimal
one_five = record { value = some (pos 15); scale = 1 }

abbrev minus_quarter : Decimal
minus_quarter = record { value = some (negsuc 24); scale = 2 }

abbrev step : Decimal
step = record { value = some (pos 4); scale = 1 }

coeff-add_example :
    coeff_at 2 (add one_five minus_quarter) ≡ coeff_at 2 one_five +ℤ coeff_at 2 minus_quarter
coeff-add_example = coeff-add one_five minus_quarter 2 (omega arith) (omega arith)

same_value : coeff_at 2 one_fifty ≡ coeff_at 2 one_five
unfolding ◌*ℤ◌
same_value = refl

normalize_unique_example : normalize one_fifty ≡ normalize one_five
normalize_unique_example =
    normalize_unique one_fifty one_five 2 (omega arith) (omega arith) same_value

equal_iff_example : (equal one_fifty one_five ≡ true) ↔ (normalize one_fifty ≡ normalize one_five)
equal_iff_example = equal_iff one_fifty one_five

floor_to_step-FloorsTo_example :
    (r : Decimal) × (floor_to_step one_fifty step ≡ ok r)
    × FloorsTo (coeff_at 2 one_fifty) (coeff_at 2 step) (coeff_at 2 r)
unfolding sign
floor_to_step-FloorsTo_example =
    floor_to_step-FloorsTo one_fifty step 2 (omega arith) (omega arith) refl refl

quo_floor_greatest_example :
    (q : ℕ) × (quo_floor one_fifty step 3
      ≡ ok (normalize (record { value = some (pos q); scale = 3 })))
    × (coeff_at 2 step *ℤ pos q ≤ℤ coeff_at 2 one_fifty *ℤ pos (10 ^ 3))
    × (coeff_at 2 one_fifty *ℤ pos (10 ^ 3) <ℤ coeff_at 2 step *ℤ pos (suc q))
unfolding sign
quo_floor_greatest_example =
    quo_floor_greatest one_fifty step 3 2 (omega arith) (omega arith) refl refl

-- "-0.25" and back.
parse-to_string_example : parse (to_string minus_quarter) ≡ parsed (normalize minus_quarter)
parse-to_string_example = parse-to_string minus_quarter

quarter_text : to_string minus_quarter ≡ "-0.25"
unfolding to_string joinanny.Decimal.normalize joinanny.Decimal.Text.print_normal
    joinanny.Decimal.Text.sign_codes joinanny.Decimal.Text.print_from joinanny.Decimal.Text.padded
    joinanny.Decimal.Text.zeros joinanny.Decimal.Text.with_point joinanny.Base.Text.Codes.of_codes
quarter_text = refl
