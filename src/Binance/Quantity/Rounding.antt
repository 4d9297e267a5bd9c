-- ===== src/Binance/Quantity/Rounding.antt =====
-- The rounding to a step in internal/exchange/binance/executor.go.
use joinanny.Base.{ℕ, ◌≤◌, ◌≡◌, subst, inl, inr, Bool-cases}
use joinanny.Decimal.{Decimal, sign, is_gt, is_lt, floor_to_step}
use joinanny.Decimal.Scale.{coeff_at}
use joinanny.Decimal.Division.{FloorsTo, floor_to_step-FloorsTo, floor_to_step_errors}
use joinanny.Binance.Exec.{ok, err, ok_injective}
use joinanny.Binance.Filters.{of_exact}

-- r is the greatest multiple of the step that is not above d, counted in any unit fine enough.
abbrev pub Rounded : Decimal → Decimal → Decimal → Type 0
Rounded d step r =
    (n : ℕ)
    → d.scale ≤ n
    → step.scale ≤ n
    → FloorsTo (coeff_at n d) (coeff_at n step) (coeff_at n r)

pub floor_to_step-Rounded :
    (d step r : Decimal) → of_exact (floor_to_step d step) ≡ ok r → Rounded d step r
floor_to_step-Rounded d step r h n hd hs =
    let (bad, low) = floor_to_step_errors d step in
    elim (Bool-cases (is_gt (sign step))) [
      | inr flat ↦ let k : err _ ≡ ok r = rw (bad flat) at h in cc
      | inl goes ↦ elim (Bool-cases (is_lt (sign d))) [
        | inl negative ↦ let k : err _ ≡ ok r = rw (low goes negative) at h in cc
        | inr not_negative ↦
            let (q, e, floors) = floor_to_step-FloorsTo d step n hd hs not_negative goes in
            let k : ok q ≡ ok r = rw e at h in
            subst (λ u. FloorsTo (coeff_at n d) (coeff_at n step) (coeff_at n u))
              (ok_injective q r k) floors
      ]
    ]
