-- ===== src/Binance/Closing/Quantities.antt =====
-- What `executeClose` of internal/exchange/binance/executor.go checks before an order: the symbol of a
-- row and the quantity.
use text.Mathlib.Text.{◌==◌ as str_eq}
use text.Mathlib.TextEquality.{eq_iff}
use joinanny.Base.{
  String, ◌≡◌, ◌+◌, ◌≤◌, subst, ◌⊎◌, inl, inr, true, false, not, ◌&&◌, arith, Bool-cases,
}
use joinanny.Decimal.{Decimal, is_zero, is_lt, cmp, floor_to_step}
use joinanny.Decimal.Order.{AtMost, AtMost-iff, not_lt→le}
use joinanny.Binance.{Error, SymbolFilters}
use joinanny.Binance.Exec.{ok, err, ok_injective}
use joinanny.Binance.Filters.{of_exact}
use joinanny.Binance.Quantity.Rounding.{Rounded, floor_to_step-Rounded}
use joinanny.Binance.Closing.{share_of, close_quantity}
use joinanny.Binance.Opening.Fits.{or_error-rule}

-- A quantity to close is a share, rounded down.
pub record Quantified (amount percent : Decimal) (filters : SymbolFilters) (quantity : Decimal)
    : Type 0 where
  pub share : Decimal
  pub shared : share_of amount percent ≡ ok share
  pub rounded : Rounded share filters.step_size quantity
  pub some_quantity : is_zero quantity ≡ false
  pub enough : AtMost filters.min_qty quantity

AtMost-not_lt : (a b : Decimal) → is_lt (cmp a b) ≡ false → AtMost b a
AtMost-not_lt a b h =
    let n = a.scale + b.scale in
    let fa : a.scale ≤ n = omega arith in
    let fb : b.scale ≤ n = omega arith in (AtMost-iff b a n fb fa).1 (not_lt→le a b n fa fb h)

pub close_quantity-Quantified :
    (amount percent : Decimal) (filters : SymbolFilters) (quantity : Decimal)
    → close_quantity amount percent filters ≡ ok quantity
    → Quantified amount percent filters quantity
unfolding close_quantity
close_quantity-Quantified amount percent filters quantity h =
    or_error-rule (share_of amount percent) _ quantity h (λ share k h'.
      or_error-rule (of_exact (floor_to_step share filters.step_size)) _ quantity h' (λ q l m.
        elim (Bool-cases (is_zero q)) [
          | inl nothing ↦ let e : err Error.below_min_qty ≡ ok quantity = rw nothing at m in cc
          | inr more ↦ elim (Bool-cases (is_lt (cmp q filters.min_qty))) [
            | inl few ↦ let e : err Error.below_min_qty ≡ ok quantity = rw (more, few) at m in cc
            | inr enough ↦
                let e : ok q ≡ ok quantity = rw (more, enough) at m in
                subst (Quantified amount percent filters) (ok_injective q quantity e) (record {
                  share = share;
                  shared = k;
                  rounded = floor_to_step-Rounded share filters.step_size q l;
                  some_quantity = more;
                  enough = AtMost-not_lt q filters.min_qty enough;
                })
          ]
        ]))

-- The guard of the loop's body.
pub named_row :
    (wanted symbol : String)
    → (not (str_eq wanted "") && not (str_eq symbol wanted)) ≡ false
    → (wanted ≡ "") ⊎ (symbol ≡ wanted)
named_row wanted symbol h = elim (Bool-cases (str_eq wanted "")) [
  | inl any ↦ inl ((eq_iff wanted "").0 any)
  | inr one ↦ elim (Bool-cases (str_eq symbol wanted)) [
    | inl same ↦ inr ((eq_iff symbol wanted).0 same)
    | inr other ↦ let e : true ≡ false = rw (one, other) at h in cc
  ]
]
