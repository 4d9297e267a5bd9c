-- ===== src/Binance/Realized.antt =====
-- internal/exchange/binance/executor.go: `RealizedTrade`, the result of a closed position from the
-- fills of the exchange.
pub mod Loop
pub mod Parts
pub mod Covered
use joinanny.Base.{
  ℕ, String, true, false, not, ◌||◌, ◌==◌, Option, none, some, List, [], ◌∷◌, if◌then◌else◌,
}
use joinanny.Base.Int.{ℤ, pos}
use joinanny.Base.Text.{trim_space, equal_fold}
use joinanny.Base.Text.Case.{to_upper, to_lower}
use text.Mathlib.Text.{◌==◌ as str_eq}
use joinanny.Decimal.{
  Decimal, decimal_zero, is_positive, is_gt, is_lt, cmp, cmp_ℤ, abs, add, sub, mul, quo_floor,
}
use joinanny.Decimal as Exact
use joinanny.Binance.{Error, UserTradeRow, ExecutorConfig, Network}
use joinanny.Binance.Exec.{Result, ok, err, pure, lift, ◌>>=◌, ◌>>◌}
use joinanny.Binance.Request.{Action, config_result, user_trades}
use joinanny.Binance.Filters.{of_exact, or_error}
use joinanny.Binance.Quantity.{parse_default, close_order_side}
use joinanny.Binance.Entry.{time_now}

-- `sort.SliceStable` by the time: each row goes in front of the first that is not earlier.
unfoldable pub insert_trade : UserTradeRow → List UserTradeRow → List UserTradeRow
insert_trade t [] = t ∷ []
insert_trade t (u ∷ us) =
    let rest = insert_trade t us in if is_gt (cmp_ℤ t.time u.time) then u ∷ rest else t ∷ u ∷ us

unfoldable pub sort_trades : List UserTradeRow → List UserTradeRow
unfolding insert_trade
sort_trades [] = []
sort_trades (t ∷ ts) = insert_trade t (sort_trades ts)

-- `unixMillis`; none is the zero time.
abbrev pub unix_millis : ℤ → Option ℕ
unix_millis (pos n) = if n == 0 then none else some n
unix_millis n = none

-- The variables of the loop.
pub record FillSums : Type 0 where
  pub net : Decimal
  pub qty_sum : Decimal
  pub notional_sum : Decimal
  pub remaining : Decimal
  pub closed_at : Option ℕ

pub record Fill : Type 0 where
  pub qty : Decimal
  pub price : Decimal
  pub pnl : Decimal
  pub commission : Decimal
  pub time : ℤ

-- The row as a fill; none where the loop goes on without it.
unfoldable pub read_fill : String → String → UserTradeRow → Result Error (Option Fill)
read_fill symbol side row =
    if not (equal_fold row.symbol symbol) || not (equal_fold row.side side)
    then ok none
    else or_error (parse_default row.qty) (λ qty.
      if not (is_positive qty)
      then ok none
      else or_error (parse_default row.price) (λ price.
        if not (is_positive price)
        then ok none
        else or_error (parse_default row.realized_pnl) (λ pnl.
          or_error (parse_default row.commission) (λ commission. ok (
            some (record {
              qty = qty;
              price = price;
              pnl = pnl;
              commission = commission;
              time = row.time;
            }))))))

-- What counts of a fill: all of it, or the part that remains of the entry.
pub record Part : Type 0 where
  pub qty : Decimal
  pub pnl : Decimal
  pub commission : Decimal

unfoldable pub part_of : Fill → Decimal → Result Error Part
part_of f remaining =
    if is_gt (cmp f.qty remaining)
    then or_error (of_exact (quo_floor remaining f.qty 16)) (λ ratio. ok (record {
      qty = remaining;
      pnl = mul f.pnl ratio;
      commission = mul (abs f.commission) ratio;
    }))
    else ok (record { qty = f.qty; pnl = f.pnl; commission = abs f.commission })

unfoldable pub include : Fill → Part → FillSums → FillSums
include f p s = record {
  net = sub (add s.net p.pnl) p.commission;
  qty_sum = add s.qty_sum p.qty;
  notional_sum = add s.notional_sum (mul f.price p.qty);
  remaining = sub s.remaining p.qty;
  closed_at = unix_millis f.time;
}

-- The test that ends the loop where nothing remains of the entry.
unfoldable pub go_on : (FillSums → Result Error FillSums) → FillSums → Result Error FillSums
go_on again s = elim (is_positive s.remaining) [ true ↦ again s | false ↦ ok s ]

-- The loop's body for a row, with the rest of the loop.
unfoldable pub count_fill :
    (FillSums → Result Error FillSums) → Option Fill → FillSums → Result Error FillSums
unfolding part_of include go_on
count_fill again none s = again s
count_fill again (some f) s = or_error (part_of f s.remaining) (λ p. go_on again (include f p s))

-- The loop.
unfoldable pub sum_fills : String → String → List UserTradeRow → FillSums → Result Error FillSums
unfolding read_fill count_fill
sum_fills symbol side [] s = ok s
sum_fills symbol side (row ∷ rows) s =
    or_error (read_fill symbol side row) (λ o. count_fill (sum_fills symbol side rows) o s)

pub record RealizedTrade : Type 0 where
  pub symbol : String
  pub side : String
  pub exit_price : Decimal
  pub realized_pnl : Decimal
  pub closed_at : ℕ

abbrev pub or_zero : Exact.Result Decimal → Decimal
or_zero (Exact.ok d) = d
or_zero (Exact.err e) = decimal_zero

-- `notionalSum / qtySum`, rounded down to 8 places.
unfoldable pub average_price : FillSums → Decimal
average_price s =
    if is_positive s.qty_sum then or_zero (quo_floor s.notional_sum s.qty_sum 8) else decimal_zero

abbrev pub time_or : Option ℕ → ℕ → ℕ
time_or none now = now
time_or (some t) now = t

-- The end of `RealizedTrade`; none where the exits do not cover the entry.
unfoldable pub realized_of : String → String → ℕ → FillSums → Option RealizedTrade
realized_of symbol side now s =
    if is_positive s.remaining
    then none
    else some (record {
      symbol = symbol;
      side = side;
      exit_price = average_price s;
      realized_pnl = s.net;
      closed_at = time_or s.closed_at now;
    })

abbrev pub no_fills : Decimal → FillSums
no_fills entry_qty = record {
  net = decimal_zero;
  qty_sum = decimal_zero;
  notional_sum = decimal_zero;
  remaining = entry_qty;
  closed_at = none;
}

-- The tests of the arguments: the side of the exits.
unfoldable pub exit_of : String → String → Decimal → Result Error String
exit_of symbol side entry_qty =
    if str_eq symbol ""
    then err Error.no_symbol
    else or_error (close_order_side side)
        (λ exit. if is_positive entry_qty then ok exit else err Error.no_quantity)

module _ (net : Network) (cfg : ExecutorConfig) where
  unfoldable pub from_sums : String → String → FillSums → Action net (Option RealizedTrade)
  unfolding realized_of time_now
  from_sums symbol side sums = time_now net >>= λ t. pure (realized_of symbol side t sums)

  -- What follows the request for the fills.
  unfoldable pub from_rows :
      String → String → String → Decimal → List UserTradeRow → Action net (Option RealizedTrade)
  unfolding sort_trades sum_fills from_sums
  from_rows symbol side exit entry_qty rows =
      lift (sum_fills symbol exit (sort_trades rows) (no_fills entry_qty)) >>= from_sums symbol side

  unfoldable pub from_exit :
      String → String → Option ℤ → Decimal → String → Action net (Option RealizedTrade)
  unfolding user_trades from_rows
  from_exit symbol side since entry_qty exit =
      user_trades net symbol since >>= from_rows symbol side exit entry_qty

  unfoldable pub realized_checked :
      String → String → Option ℤ → Decimal → Action net (Option RealizedTrade)
  unfolding exit_of from_exit
  realized_checked symbol side since entry_qty =
      lift (exit_of symbol side entry_qty) >>= from_exit symbol side since entry_qty

  -- `RealizedTrade`.
  unfoldable pub realized_trade :
      String → String → Option ℤ → Decimal → Action net (Option RealizedTrade)
  unfolding config_result realized_checked
  realized_trade symbol_text side_text since entry_qty =
      lift (config_result cfg)
      >> realized_checked (to_upper (trim_space symbol_text)) (to_lower (trim_space side_text))
          since entry_qty
