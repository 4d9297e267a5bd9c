-- ===== src/Binance/Realized/Covered.antt =====
-- `RealizedTrade` of internal/exchange/binance/executor.go: the fills that it counts cover the entry.
use joinanny.Base.{
  ℕ, String, ◌≡◌, refl, sym, ◌∙◌, ◌⊎◌, inl, inr, true, false, ◌&&◌, Option, none, some, List, [],
  ◌∷◌, if◌then◌else◌, Bool-cases,
}
use joinanny.Base.Int.{ℤ}
use joinanny.Decimal.{Decimal, normalize, is_positive}
use joinanny.Binance.{Error, UserTradeRow, ExecutorConfig, Network, ExecutorState}
use joinanny.Binance.Exec.{Result, ok, err, lift, >>=-rule, ok_injective, Result-cases}
use joinanny.Base.Text.{trim_space, equal_fold}
use text.Mathlib.Text.{◌==◌ as str_eq}
use text.Mathlib.TextEquality.{eq_iff}
use joinanny.Binance.Filters.{or_error}
use joinanny.Binance.Quantity.{close_order_side}
use joinanny.Base.Text.Case.{to_upper, to_lower}
use joinanny.Binance.Request.{config_result, user_trades}
use joinanny.Binance.Entry.{time_now}
use joinanny.Binance.Realized.Parts.{Parts, sum_fills-Parts}
use joinanny.Binance.Realized.Loop.{sum_fills-Covers, no_fills-Covers, all_counted}
use joinanny.Binance.Realized.{
  FillSums, read_fill, count_fill, sum_fills, RealizedTrade, average_price, realized_of, no_fills,
  exit_of, sort_trades, from_sums, from_rows, from_exit, realized_checked, realized_trade,
}

-- The rows of the symbol's fills on the given side.
abbrev pub exits : String → String → List UserTradeRow → List UserTradeRow
exits symbol side [] = []
exits symbol side (row ∷ rows) =
    let rest = exits symbol side rows in
    if equal_fold row.symbol symbol && equal_fold row.side side then row ∷ rest else rest

-- The side of the orders that close a position of a side.
abbrev pub ClosesWith : String → String → Type 0
ClosesWith side exit =
    ((to_lower (trim_space side) ≡ "long") × (exit ≡ "SELL"))
    ⊎ ((to_lower (trim_space side) ≡ "short") × (exit ≡ "BUY"))

-- A trade that is told is made from the exits of the answer alone, as if there were no other rows, and
-- their quantities add up to the entry's.
pub record Counted (symbol side : String) (entry : Decimal)
    (answer : Result Error (List UserTradeRow)) (t : RealizedTrade) : Type 0 where
  pub rows : List UserTradeRow
  pub answered : answer ≡ ok rows
  pub named : t.symbol ≡ symbol
  pub sided : t.side ≡ side
  pub exit : String
  pub closes : ClosesWith side exit
  pub sums : FillSums
  pub summed :
      sum_fills symbol exit (exits symbol exit (sort_trades rows)) (no_fills entry) ≡ ok sums
  pub made : Parts symbol exit (exits symbol exit (sort_trades rows)) (no_fills entry) sums
  pub pnl : t.realized_pnl ≡ sums.net
  pub price : t.exit_price ≡ average_price sums
  pub all_of_it : normalize sums.qty_sum ≡ normalize entry

-- The loop takes nothing from a row that is no exit.
other_row :
    (symbol side : String) (row : UserTradeRow)
    → (equal_fold row.symbol symbol && equal_fold row.side side) ≡ false
    → read_fill symbol side row ≡ ok none
unfolding read_fill
other_row symbol side row h = elim (Bool-cases (equal_fold row.symbol symbol)) [
  | inr other ↦ rw other refl
  | inl own ↦ let entry : equal_fold row.side side ≡ false = rw own at h in rw (own, entry) refl
]

sum_fills-exits :
    (symbol side : String) (rows : List UserTradeRow) (s : FillSums)
    → sum_fills symbol side rows s ≡ sum_fills symbol side (exits symbol side rows) s
unfolding sum_fills
sum_fills-exits symbol side [] s = refl
sum_fills-exits symbol side (row ∷ rows) s =
    elim (Bool-cases (equal_fold row.symbol symbol && equal_fold row.side side)) [
      | inr other ↦
          let e = other_row symbol side row other in
          rw (other, e, count_fill) (sum_fills-exits symbol side rows s)
      | inl exit ↦ rw exit (λ i.
          or_error (read_fill symbol side row)
            (λ o. count_fill (λ t. sum_fills-exits symbol side rows t i) o s))
    ]

realized_of-some :
    (symbol side : String) (now : ℕ) (s : FillSums) (t : RealizedTrade)
    → realized_of symbol side now s ≡ some t
    → (is_positive s.remaining ≡ false)
      × (t.symbol ≡ symbol)
      × (t.side ≡ side)
      × (t.realized_pnl ≡ s.net)
      × (t.exit_price ≡ average_price s)
unfolding realized_of
realized_of-some symbol side now s t h = elim (Bool-cases (is_positive s.remaining)) [
  | inl more ↦ let refusal : none ≡ some t = rw (more, realized_of) at h in cc
  | inr done ↦ let same : some _ ≡ some t = rw (done, realized_of) at h in (done, cc, cc, cc, cc)
]

exit_of-ok :
    (symbol side exit : String) (entry : Decimal)
    → exit_of symbol side entry ≡ ok exit
    → (is_positive entry ≡ true) × (close_order_side side ≡ ok exit)
unfolding exit_of
exit_of-ok symbol side exit entry h = elim (Bool-cases (str_eq symbol "")) [
  | inl empty ↦ let k : err Error.no_symbol ≡ ok exit = rw (empty, exit_of) at h in cc
  | inr given ↦ elim (Result-cases (close_order_side side)) [
    | inr (e, bad) ↦ let k : err e ≡ ok exit = rw (given, exit_of, bad) at h in cc
    | inl (x, good) ↦ elim (Bool-cases (is_positive entry)) [
      | inr none_left ↦
          let k : err Error.no_quantity ≡ ok exit = rw (given, exit_of, good, none_left) at h in cc
      | inl more ↦ let k : ok x ≡ ok exit = rw (given, exit_of, good, more) at h in (more, good ∙ k)
    ]
  ]
]

close_order_side-ClosesWith :
    (side exit : String) → close_order_side side ≡ ok exit → ClosesWith side exit
unfolding close_order_side
close_order_side-ClosesWith side exit h =
    let name = to_lower (trim_space side) in
    elim (Bool-cases (str_eq name "long")) [
      | inl long ↦
          let k : ok "SELL" ≡ ok exit = rw long at h in
          inl ((eq_iff name "long").0 long, sym (ok_injective _ exit k))
      | inr other ↦ elim (Bool-cases (str_eq name "short")) [
        | inl short ↦
            let k : ok "BUY" ≡ ok exit = rw (other, short) at h in
            inr ((eq_iff name "short").0 short, sym (ok_injective _ exit k))
        | inr neither ↦ let k : err Error.bad_side ≡ ok exit = rw (other, neither) at h in cc
      ]
    ]

module _ (net : Network) (cfg : ExecutorConfig) (symbol side : String) (entry : Decimal)
    (answer : Result Error (List UserTradeRow)) where
  abbrev Tells : Result Error (Option RealizedTrade) × ExecutorState net.World → Type 0
  Tells r = (t : RealizedTrade) → r.0 ≡ ok (some t) → Counted symbol side entry answer t

  from_rows-Tells :
      (exit : String) (rows : List UserTradeRow) (s : ExecutorState net.World)
      → answer ≡ ok rows
      → is_positive entry ≡ true
      → ClosesWith side exit
      → Tells (from_rows net cfg symbol side exit entry rows s)
  unfolding from_rows from_sums time_now
  from_rows-Tells exit rows s a h c =
      >>=-rule Tells (lift (sum_fills symbol exit (sort_trades rows) (no_fills entry)))
        (from_sums net cfg symbol side) s (λ e k t q. cc q)
        (λ sums k t q.
          let (done, name, way, pnl, price) =
            realized_of-some symbol side (net.now s.world) sums t (ok_injective _ (some t) q) in
          let own = sym (sum_fills-exits symbol exit (sort_trades rows) (no_fills entry)) ∙ k in
          record {
            rows = rows;
            answered = a;
            named = name;
            sided = way;
            exit = exit;
            closes = c;
            sums = sums;
            summed = own;
            made =
                sum_fills-Parts symbol exit (exits symbol exit (sort_trades rows)) (no_fills entry)
                  sums own;
            pnl = pnl;
            price = price;
            all_of_it =
                all_counted entry sums
                  (sum_fills-Covers symbol exit entry (sort_trades rows) (no_fills entry) sums
                    (no_fills-Covers entry h) k)
                  done;
          })

realized_checked-Tells :
    (net : Network) (cfg : ExecutorConfig) (symbol side : String) (entry : Decimal)
    (since : Option ℤ) (s : ExecutorState net.World)
    → Tells net cfg symbol side entry
        (user_trades net symbol since s).0
        (realized_checked net cfg symbol side since entry s)
unfolding realized_checked from_exit
realized_checked-Tells net cfg symbol side entry since s =
    let answer = (user_trades net symbol since s).0 in
    let P = Tells net cfg symbol side entry answer in
    >>=-rule P (lift (exit_of symbol side entry)) (from_exit net cfg symbol side since entry) s
      (λ e k t q. cc q)
      (λ exit k.
        let (more, closing) = exit_of-ok symbol side exit entry k in
        >>=-rule P (user_trades net symbol since) (from_rows net cfg symbol side exit entry) s
          (λ e l t q. cc q)
          (λ rows l.
            from_rows-Tells net cfg symbol side entry answer exit rows _ l more
              (close_order_side-ClosesWith side exit closing)))

-- `RealizedTrade` tells a trade, of the symbol and the side that were asked for, only from exits that
-- cover the entry exactly: of the exchange's answer it counts only fills of the symbol on the side that
-- closes the position, as if there were no other rows. Each is counted whole or by the share that is
-- left of the entry, and the quantities that are counted add up to the entry's; the result is the sum
-- of the counted results less the sizes of the counted commissions, and the price the average over
-- just those fills.
pub realized_trade-Counted :
    (net : Network) (cfg : ExecutorConfig) (symbol side : String) (since : Option ℤ)
    (entry : Decimal)
    → (s : ExecutorState net.World) (t : RealizedTrade)
    → (realized_trade net cfg symbol side since entry s).0 ≡ ok (some t)
    → Counted
        (to_upper (trim_space symbol))
        (to_lower (trim_space side))
        entry
        (user_trades net (to_upper (trim_space symbol)) since s).0
        t
unfolding realized_trade
realized_trade-Counted net cfg symbol side since entry s =
    let upper = to_upper (trim_space symbol) in
    let lower = to_lower (trim_space side) in
    >>=-rule (Tells net cfg upper lower entry (user_trades net upper since s).0)
      (lift (config_result cfg)) (λ _. realized_checked net cfg upper lower since entry) s
      (λ e k t q. cc q) (λ _ k. realized_checked-Tells net cfg upper lower entry since s)
