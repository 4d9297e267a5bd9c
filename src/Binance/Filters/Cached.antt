-- ===== src/Binance/Filters/Cached.antt =====
-- The cache of `symbolFilters` of internal/exchange/binance/executor.go.
use text.Mathlib.Text.{◌==◌ as str_eq}
use joinanny.Base.{
  ℕ, ◌-◌, ltb, String, ◌≡◌, sym, ap, ◌∙◌, subst, inl, inr, true, Option, none, some, List, [], ◌∷◌,
  if◌then◌else◌, arith, Bool-cases, Option-cases,
}
use joinanny.Base.Table.{Table, lookup, insert, lookup-insert}
use joinanny.Decimal.{is_positive}
use joinanny.Binance.{Error, SymbolInfo, SymbolFilters, ExecutorConfig, Network, ExecutorState}
use joinanny.Binance.Exec.{Result, ok, err, Result-cases, ok_injective, >>=-rule}
use joinanny.Binance.Request.{send, public_request}
use joinanny.Binance.Filters.{
  checked_filters, no_filters, read_filters, parse_symbol_filters, filter_table, or_missing, cached,
  exchange_info_call, keep_filters, fetch_filters, symbol_filters,
}

-- Filters by which a price and a quantity can be rounded.
pub record IsUsable (f : SymbolFilters) : Type 0 where
  pub tick : is_positive f.tick_size ≡ true
  pub step : is_positive f.step_size ≡ true
  pub least : is_positive f.min_qty ≡ true

abbrev pub AllUsable : Table SymbolFilters → Type 0
AllUsable table = (symbol : String) (f : SymbolFilters) → lookup symbol table ≡ some f → IsUsable f

checked_filters-IsUsable : (known f : SymbolFilters) → checked_filters known ≡ ok f → IsUsable f
unfolding checked_filters
checked_filters-IsUsable known f h = record {
  tick = ground (arith, h);
  step = ground (arith, h);
  least = ground (arith, h);
}

parse_symbol_filters-IsUsable :
    (info : SymbolInfo) (f : SymbolFilters) → parse_symbol_filters info ≡ ok f → IsUsable f
unfolding parse_symbol_filters
parse_symbol_filters-IsUsable info f h =
    elim (Result-cases (read_filters info.filters no_filters)) [
      | inl (known, e) ↦
          let k : checked_filters known ≡ ok f = rw (e, parse_symbol_filters) at h in
          checked_filters-IsUsable known f k
      | inr (x, e) ↦ let k : err x ≡ ok f = rw (e, parse_symbol_filters) at h in cc
    ]

insert-AllUsable :
    (symbol : String) (f : SymbolFilters) (table : Table SymbolFilters)
    → IsUsable f
    → AllUsable table
    → AllUsable (insert symbol f table)
insert-AllUsable symbol f table u all other g h =
    let k : (if str_eq symbol other then some f else lookup other table) ≡ some g =
      sym (lookup-insert symbol other f table) ∙ h in
    elim (Bool-cases (str_eq symbol other)) [
      | inl same ↦
          let q : some f ≡ some g = rw same at k in let r : f ≡ g = cc in subst IsUsable r u
      | inr apart ↦ let q : lookup other table ≡ some g = rw apart at k in all other g q
    ]

filter_table-AllUsable :
    (infos : List SymbolInfo) (table : Table SymbolFilters)
    → AllUsable table
    → AllUsable (filter_table infos table)
unfolding filter_table
filter_table-AllUsable [] table all = all
filter_table-AllUsable (info ∷ infos) table all = elim (Result-cases (parse_symbol_filters info)) [
  | inl (f, e) ↦
      rw (e, filter_table)
        (filter_table-AllUsable infos _
          (insert-AllUsable info.symbol f table (parse_symbol_filters-IsUsable info f e) all))
  | inr (x, e) ↦ rw (e, filter_table) (filter_table-AllUsable infos table all)
]

pub empty-AllUsable : AllUsable []
unfolding lookup
empty-AllUsable symbol f h = cc

cached-some :
    (now ttl : ℕ) (refreshed : Option ℕ) (found : Option SymbolFilters) (f : SymbolFilters)
    → cached now ttl refreshed found ≡ some f
    → found ≡ some f
unfolding cached
cached-some now ttl none found f h = cc
cached-some now ttl (some t) found f h = elim (Bool-cases (ltb (now - t) ttl)) [
  | inl young ↦ rw young at h
  | inr old ↦ let k : none ≡ some f = rw old at h in cc
]

or_missing-some : (o : Option SymbolFilters) (f : SymbolFilters) → or_missing o ≡ ok f → o ≡ some f
or_missing-some none f h = cc
or_missing-some (some g) f h = ap some (ok_injective g f h)

module _ (net : Network) (cfg : ExecutorConfig) where
  abbrev pub StaysUsable : Result Error SymbolFilters × ExecutorState net.World → Type 0
  StaysUsable r = AllUsable r.1.filters × ((f : SymbolFilters) → r.0 ≡ ok f → IsUsable f)

  fetch_filters-StaysUsable :
      (symbol : String) (s : ExecutorState net.World)
      → AllUsable s.filters
      → StaysUsable (fetch_filters net cfg symbol s)
  unfolding fetch_filters keep_filters send
  fetch_filters-StaysUsable symbol s all =
      >>=-rule StaysUsable (public_request net exchange_info_call net.decode_exchange_info)
        (keep_filters net cfg symbol) s (λ e h. (all, λ f q. cc q))
        (λ infos h.
          let table = filter_table-AllUsable infos [] empty-AllUsable in
          (table, λ f q. table symbol f (or_missing-some _ f q)))

-- The filters that the executor keeps can always be used for rounding: with a cache of such filters,
-- `symbolFilters` leaves one, also where the exchange's answer has symbols that do not parse, that lack
-- a filter, or whose step is 0, and what it returns is such a filter; so no rounding by it fails for
-- its step.
pub symbol_filters-StaysUsable :
    (net : Network) (cfg : ExecutorConfig) (symbol : String) (s : ExecutorState net.World)
    → AllUsable s.filters
    → StaysUsable net cfg (symbol_filters net cfg symbol s)
unfolding symbol_filters
symbol_filters-StaysUsable net cfg symbol s all =
    elim (Option-cases (
      cached (net.now s.world) cfg.exchange_info_cache_ttl s.filters_refreshed
        (lookup symbol s.filters))) [
          | inl e ↦ rw (e, symbol_filters) (fetch_filters-StaysUsable net cfg symbol s all)
          | inr (f, e) ↦
              rw (e, symbol_filters)
                (
                  all,
                  λ g q. all symbol g (
                      cached-some _ _ s.filters_refreshed (lookup symbol s.filters) f e
                      ∙ ap some (ok_injective f g q)),
                )
        ]
