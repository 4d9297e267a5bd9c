-- ===== src/Binance/Quantity.antt =====
-- internal/exchange/binance/executor.go: sides, quantities and ids of the orders, and positions read
-- from the exchange's rows.
pub mod Rounding
use Prim.Native.String.{len, slice, ◌++◌}
use joinanny.Base.{
  ℕ, String, Bool, true, false, ◌||◌, ◌&&◌, Option, none, some, List, [], ◌∷◌, ◌==◌, ◌^◌, ltb, leb,
  if◌then◌else◌,
}
use joinanny.Base.Int.{ℤ, pos, pos_part, neg_part}
use joinanny.Base.Text.{trim_space, equal_fold}
use joinanny.Base.Text.Case.{to_lower}
use text.Mathlib.Text.{◌==◌ as str_eq}
use joinanny.Decimal.{
  Decimal, decimal_zero, is_zero, is_positive, is_lt, cmp, abs, mul, floor_to_step, quo_floor,
}
use joinanny.Decimal.Text.{all_digits, read, signed}
use joinanny.Base.Text.Codes.{codes}
use joinanny.Domain.{Side, SizeKind, OpenIntent, PositionSide, Position}
use joinanny.Binance.{Error, PositionRisk, SymbolFilters}
use joinanny.Binance.Exec.{Result, ok, err}
use joinanny.Binance.Filters.{of_exact, or_error, parse_number}

-- `executor.clientOrderID`: at most 18 bytes of the confirmation's id.
unfoldable pub client_order_id : String → String → String
client_order_id confirmation_id leg =
    "tb_"
    ++ (if ltb 18 (len confirmation_id) then slice confirmation_id 0 18 else confirmation_id)
    ++ "_"
    ++ leg

-- The sides of the entry and of the exits.
unfoldable pub order_sides : Side → String × String
order_sides Side.short = ("SELL", "BUY")
order_sides _ = ("BUY", "SELL")

unfoldable pub close_order_side : String → Result Error String
close_order_side side =
    let name = to_lower (trim_space side) in
    if str_eq name "long"
    then ok "SELL"
    else if str_eq name "short"
    then ok "BUY"
    else err Error.bad_side

unfoldable pub exit_side : PositionSide → String
exit_side PositionSide.short = "BUY"
exit_side _ = "SELL"

abbrev pub sized : SizeKind → Decimal → Decimal → Result Error Decimal
sized SizeKind.qty amount entry = ok amount
sized SizeKind.usdt amount entry = of_exact (quo_floor amount entry 16)
sized _ amount entry = err Error.bad_size

unfoldable pub open_quantity : OpenIntent → Decimal → SymbolFilters → Result Error Decimal
open_quantity intent entry filters =
    or_error (sized intent.size.kind intent.size.amount entry)
      (λ q. of_exact (floor_to_step q filters.step_size))

unfoldable pub validate_quantity_and_notional :
    Decimal → Decimal → SymbolFilters → Result Error (Unit {0})
validate_quantity_and_notional quantity price filters =
    if is_zero quantity || is_lt (cmp quantity filters.min_qty)
    then err Error.below_min_qty
    else if is_positive filters.min_notional
        && is_lt (cmp (mul quantity price) filters.min_notional)
    then err Error.below_min_notional
    else ok tt

unfoldable pub default_decimal_string : String → String
default_decimal_string value = let text = trim_space value in if str_eq text "" then "0" else text

unfoldable pub parse_default : String → Result Error Decimal
parse_default text = parse_number (default_decimal_string text)

abbrev pub in_int64 : ℤ → Option ℤ
in_int64 n = if ltb (pos_part n) (2 ^ 63) && leb (neg_part n) (2 ^ 63) then some n else none

unfoldable pub atoi_unsigned : Bool → List ℕ → Option ℤ
atoi_unsigned negative [] = none
atoi_unsigned negative (c ∷ cs) =
    if all_digits (c ∷ cs) then in_int64 (signed negative (read 0 (c ∷ cs))) else none

unfoldable pub atoi_codes : List ℕ → Option ℤ
atoi_codes [] = none
atoi_codes (c ∷ cs) =
    if c == b'+'
    then atoi_unsigned false cs
    else if c == b'-'
    then atoi_unsigned true cs
    else atoi_unsigned false (c ∷ cs)

-- `strconv.Atoi`.
unfoldable pub atoi : String → Option ℤ
atoi text = atoi_codes (codes text)

unfoldable pub leverage_of : String → Result Error ℤ
leverage_of text =
    let trimmed = trim_space text in
    if str_eq trimmed ""
    then ok (pos 0)
    else elim (atoi trimmed) [ some n ↦ ok n | none ↦ err (Error.bad_leverage text) ]

unfoldable pub position_side : Decimal → String → PositionSide
position_side amount text =
    if is_lt (cmp amount decimal_zero) || equal_fold text "SHORT"
    then PositionSide.short
    else PositionSide.long

abbrev pub known_position : PositionRisk → Decimal → Result Error (Option Position)
known_position risk amount = or_error (parse_default risk.entry_price) (λ entry.
    or_error (parse_default risk.mark_price) (λ mark.
      or_error (parse_default risk.unrealized_profit) (λ profit.
        or_error (leverage_of risk.leverage) (λ leverage. ok (
          some (record {
            symbol = risk.symbol;
            side = position_side amount risk.position_side;
            amount = abs amount;
            entry_price = entry;
            mark_price = mark;
            unrealized_profit = profit;
            leverage = leverage;
            margin_type = to_lower (trim_space risk.margin_type);
          }))))))

-- none: the position is closed.
unfoldable pub position_from_risk : PositionRisk → Result Error (Option Position)
position_from_risk risk =
    or_error (parse_number risk.position_amt)
      (λ amount. if is_zero amount then ok none else known_position risk amount)

-- The loop of `Positions`.
unfoldable pub positions_from : List PositionRisk → Result Error (List Position)
unfolding position_from_risk
positions_from [] = ok []
positions_from (risk ∷ risks) =
    or_error (position_from_risk risk)
      (λ o. or_error (positions_from risks) (λ ps. ok (elim o [ none ↦ ps | some p ↦ p ∷ ps ])))
