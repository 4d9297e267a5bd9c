-- ===== src/Binance/Filters.antt =====
-- internal/exchange/binance/executor.go: `parseSymbolFilters` and `symbolFilters`, with the cache.
pub mod Cached
use joinanny.Base.{ℕ, ◌-◌, String, Option, none, some, List, [], ◌∷◌, ltb, if◌then◌else◌}
use joinanny.Base.Table.{Table, lookup, insert}
use text.Mathlib.Text.{◌==◌ as str_eq}
use joinanny.Decimal.{Decimal, is_positive, DecimalError}
use joinanny.Decimal as Exact
use joinanny.Decimal.Text.{parse, Parsed, parsed, malformed}
use joinanny.Orders.Store.{zero_decimal}
use joinanny.Binance.{
  Method, Call, Error, ExchangeFilter, SymbolInfo, SymbolFilters, ExecutorConfig, Network,
}
use joinanny.Binance.Exec.{Result, ok, err, ◌>>=◌}
use joinanny.Binance.Request.{Action, public_request}

abbrev pub of_parsed : Parsed → Result Error Decimal
of_parsed (parsed d) = ok d
of_parsed (malformed e) = err (Error.unread e)

abbrev pub of_exact : Exact.Result Decimal → Result Error Decimal
of_exact (Exact.ok d) = ok d
of_exact (Exact.err e) = err (Error.inexact e)

-- `decimal.Parse` with the executor's errors.
unfoldable pub parse_number : String → Result Error Decimal
parse_number text = of_parsed (parse text)

abbrev pub or_error : {A B : Type 0} → Result Error A → (A → Result Error B) → Result Error B
or_error (ok a) f = f a
or_error (err e) f = err e

-- The loop's body: one filter of the symbol.
unfoldable pub read_filter : ExchangeFilter → SymbolFilters → Result Error SymbolFilters
unfolding parse_number
read_filter f known =
    if str_eq f.filter_type "PRICE_FILTER"
    then or_error (parse_number f.tick_size) (λ v. ok (record known { tick_size = v }))
    else if str_eq f.filter_type "LOT_SIZE"
    then or_error (parse_number f.step_size) (λ step.
      or_error (parse_number f.min_qty)
        (λ least. ok (record known { step_size = step; min_qty = least })))
    else if str_eq f.filter_type "MIN_NOTIONAL"
    then or_error (parse_number f.notional) (λ v. ok (record known { min_notional = v }))
    else ok known

unfoldable pub read_filters : List ExchangeFilter → SymbolFilters → Result Error SymbolFilters
unfolding read_filter
read_filters [] known = ok known
read_filters (f ∷ fs) known = or_error (read_filter f known) (λ known'. read_filters fs known')

-- `SymbolFilters{}`.
abbrev pub no_filters : SymbolFilters
no_filters = record {
  tick_size = zero_decimal;
  step_size = zero_decimal;
  min_qty = zero_decimal;
  min_notional = zero_decimal;
}

unfoldable pub checked_filters : SymbolFilters → Result Error SymbolFilters
checked_filters f =
    if is_positive f.tick_size
    then if is_positive f.step_size
      then if is_positive f.min_qty then ok f else err (Error.missing_filter "min qty")
      else err (Error.missing_filter "LOT_SIZE")
    else err (Error.missing_filter "PRICE_FILTER")

unfoldable pub parse_symbol_filters : SymbolInfo → Result Error SymbolFilters
unfolding read_filters checked_filters
parse_symbol_filters symbol = or_error (read_filters symbol.filters no_filters) checked_filters

-- The loop of `symbolFilters` over the answer: a symbol that does not parse is left out.
unfoldable pub filter_table : List SymbolInfo → Table SymbolFilters → Table SymbolFilters
unfolding parse_symbol_filters
filter_table [] known = known
filter_table (info ∷ rest) known = elim (parse_symbol_filters info) [
  | ok f ↦ filter_table rest (insert info.symbol f known)
  | err e ↦ filter_table rest known
]

abbrev pub or_missing : Option SymbolFilters → Result Error SymbolFilters
or_missing (some f) = ok f
or_missing none = err Error.no_filters

abbrev pub exchange_info_call : Call
exchange_info_call = record { method = Method.get; path = "/fapi/v1/exchangeInfo"; params = [] }

-- The cache is read where it is younger than its time to live (which is not 0) and has the symbol.
unfoldable pub cached : ℕ → ℕ → Option ℕ → Option SymbolFilters → Option SymbolFilters
cached now ttl none found = none
cached now ttl (some refreshed) found = if ltb (now - refreshed) ttl then found else none

module _ (net : Network) (cfg : ExecutorConfig) where
  open net use {now, decode_exchange_info}

  -- The cache is replaced as a whole.
  unfoldable pub keep_filters : String → List SymbolInfo → Action net SymbolFilters
  unfolding filter_table
  keep_filters symbol infos s =
      let table = filter_table infos [] in
      (
        or_missing (lookup symbol table),
        record s { filters = table; filters_refreshed = some (now s.world) },
      )

  unfoldable pub fetch_filters : String → Action net SymbolFilters
  unfolding keep_filters
  fetch_filters symbol =
      public_request net exchange_info_call decode_exchange_info >>= keep_filters symbol

  unfoldable pub symbol_filters : String → Action net SymbolFilters
  unfolding fetch_filters cached
  symbol_filters symbol s =
      elim (cached (now s.world) cfg.exchange_info_cache_ttl s.filters_refreshed
        (lookup symbol s.filters)) [ some f ↦ (ok f, s) | none ↦ fetch_filters symbol s ]
