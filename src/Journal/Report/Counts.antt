-- ===== src/Journal/Report/Counts.antt =====
-- That the figures of internal/journal/report.go agree with each other.
use joinanny.Base.{
  ℕ, ◌+◌, ◌≡◌, refl, ◌∙◌, inl, inr, String, List, [], ◌∷◌, arith, length, Bool-cases,
}
use joinanny.Base.Table.{Table, lookup, insert}
use text.Mathlib.Text.{◌==◌ as str_eq}
use joinanny.Decimal.{add}
use joinanny.Journal.{Outcome, Trade, closed}
use joinanny.Journal.Report.{
  GroupAcc, GroupStat, Sums, add_outcome, group_or_new, add_trade, accumulate, strategy_key,
  count_outcome, count_closed, count_trade, count_all, no_sums, finalize, aggregate,
}

-- All the trades of the groups, together.
unfoldable pub grouped : Table GroupAcc → ℕ
grouped [] = 0
grouped ((_, acc) ∷ groups) = acc.trades + grouped groups

unfoldable pub grouped_stats : Table GroupStat → ℕ
grouped_stats [] = 0
grouped_stats ((_, s) ∷ groups) = s.trades + grouped_stats groups

grouped_stats-finalize :
    (groups : Table GroupAcc) → grouped_stats (finalize groups) ≡ grouped groups
unfolding grouped_stats finalize grouped
grouped_stats-finalize [] = refl
grouped_stats-finalize ((_, acc) ∷ groups) = rw (grouped_stats-finalize groups) refl

trades-add_trade : (t : Trade) (acc : GroupAcc) → (add_trade t acc).trades ≡ acc.trades + 1
unfolding add_trade add_outcome
trades-add_trade t acc =
    elim t.outcome
      as (λ o.
        (add_outcome o
          (record acc { trades = acc.trades + 1; pnl = add acc.pnl t.pnl_usdt })).trades
        ≡ acc.trades + 1) [
          | Outcome.unset ↦ refl
          | Outcome.opened ↦ refl
          | Outcome.win ↦ refl
          | Outcome.loss ↦ refl
          | Outcome.breakeven ↦ refl
          | Outcome.other s ↦ refl
        ]

grouped-insert :
    (key : String) (v : GroupAcc) (groups : Table GroupAcc)
    → grouped (insert key v groups) + (group_or_new (lookup key groups)).trades
      ≡ grouped groups + v.trades
unfolding grouped lookup insert group_or_new
grouped-insert key v [] = omega arith
grouped-insert key v ((j, acc) ∷ groups) = elim (Bool-cases (str_eq j key)) [
  | inl same ↦ rw same (omega arith)
  | inr differ ↦ rw differ (omega (arith, grouped-insert key v groups))
]

-- One more trade in the group of a key, the others as they are.
grouped-accumulate :
    (key : String) (t : Trade) (groups : Table GroupAcc)
    → grouped (accumulate key t groups) ≡ grouped groups + 1
unfolding accumulate
grouped-accumulate key t groups =
    let acc = group_or_new (lookup key groups) in
    omega (arith, grouped-insert key (add_trade t acc) groups, trades-add_trade t acc)

-- What an outcome counts as.
abbrev pub won : Outcome → ℕ
won Outcome.win = 1
won _ = 0

abbrev pub lost : Outcome → ℕ
lost Outcome.loss = 1
lost _ = 0

abbrev pub even : Outcome → ℕ
even Outcome.breakeven = 1
even _ = 0

abbrev pub running : Outcome → ℕ
running Outcome.win = 0
running Outcome.loss = 0
running Outcome.breakeven = 0
running _ = 1

-- The number of the trades that count as something.
abbrev pub number_of : (Outcome → ℕ) → List Trade → ℕ
number_of count [] = 0
number_of count (t ∷ ts) = count t.outcome + number_of count ts

-- The later counts are the earlier ones with those of some trades.
abbrev Tallied : List Trade → Sums → Sums → Type 0
Tallied ts s s' =
    (s'.trades ≡ s.trades + length ts)
    × (s'.wins ≡ s.wins + number_of won ts)
    × (s'.losses ≡ s.losses + number_of lost ts)
    × (s'.breakeven ≡ s.breakeven + number_of even ts)
    × (s'.open_trades ≡ s.open_trades + number_of running ts)

count_trade-Tallied :
    (o : Outcome) (t : Trade) (s : Sums) → t.outcome ≡ o → Tallied (t ∷ []) s (count_trade t s)
unfolding count_trade count_outcome count_closed closed
count_trade-Tallied Outcome.win t s e =
    rw e (omega arith, omega arith, omega arith, omega arith, omega arith)
count_trade-Tallied Outcome.loss t s e =
    rw e (omega arith, omega arith, omega arith, omega arith, omega arith)
count_trade-Tallied Outcome.breakeven t s e =
    rw e (omega arith, omega arith, omega arith, omega arith, omega arith)
count_trade-Tallied Outcome.unset t s e =
    rw e (omega arith, omega arith, omega arith, omega arith, omega arith)
count_trade-Tallied Outcome.opened t s e =
    rw e (omega arith, omega arith, omega arith, omega arith, omega arith)
count_trade-Tallied (Outcome.other x) t s e =
    rw e (omega arith, omega arith, omega arith, omega arith, omega arith)

count_all-Tallied : (ts : List Trade) (s : Sums) → Tallied ts s (count_all ts s)
unfolding count_all
count_all-Tallied [] s = (omega arith, omega arith, omega arith, omega arith, omega arith)
count_all-Tallied (t ∷ ts) s =
    let (a, b, c, d, e) = count_trade-Tallied t.outcome t s refl in
    let (a', b', c', d', e') = count_all-Tallied ts (count_trade t s) in
    (omega arith, omega arith, omega arith, omega arith, omega arith)

-- The counts of the loop agree.
abbrev Agree : Sums → Type 0
Agree s =
    (s.trades ≡ s.wins + s.losses + s.breakeven + s.open_trades)
    × (s.closed_trades ≡ s.wins + s.losses + s.breakeven)
    × (grouped s.by_strategy ≡ s.closed_trades)
    × (grouped s.by_symbol ≡ s.closed_trades)

count_trade_as :
    (o : Outcome) (t : Trade) (s : Sums) → t.outcome ≡ o → Agree s → Agree (count_trade t s)
unfolding count_trade count_outcome count_closed closed
count_trade_as Outcome.win t s e (a, b, c, d) = rw e (
  omega arith,
  omega arith,
  omega (
    arith,
    grouped-accumulate (strategy_key t.strategy) (record t { outcome = Outcome.win }) s.by_strategy,
  ),
  omega (arith, grouped-accumulate t.symbol (record t { outcome = Outcome.win }) s.by_symbol),
)
count_trade_as Outcome.loss t s e (a, b, c, d) = rw e (
  omega arith,
  omega arith,
  omega (
    arith,
    grouped-accumulate (strategy_key t.strategy) (record t { outcome = Outcome.loss })
        s.by_strategy,
  ),
  omega (arith, grouped-accumulate t.symbol (record t { outcome = Outcome.loss }) s.by_symbol),
)
count_trade_as Outcome.breakeven t s e (a, b, c, d) = rw e (
  omega arith,
  omega arith,
  omega (
    arith,
    grouped-accumulate (strategy_key t.strategy) (record t { outcome = Outcome.breakeven })
        s.by_strategy,
  ),
  omega (arith, grouped-accumulate t.symbol (record t { outcome = Outcome.breakeven }) s.by_symbol),
)
count_trade_as Outcome.unset t s e (a, b, c, d) = rw e (omega arith, b, c, d)
count_trade_as Outcome.opened t s e (a, b, c, d) = rw e (omega arith, b, c, d)
count_trade_as (Outcome.other x) t s e (a, b, c, d) = rw e (omega arith, b, c, d)

count_all-Agree : (ts : List Trade) (s : Sums) → Agree s → Agree (count_all ts s)
unfolding count_all
count_all-Agree [] s a = a
count_all-Agree (t ∷ ts) s a =
    count_all-Agree ts (count_trade t s) (count_trade_as t.outcome t s refl a)

-- How the figures of a report hang together with its trades.
abbrev pub Figures : List Trade → Type 0
Figures ts =
    let r = aggregate ts in
    (r.trades ≡ length ts)
    × (r.wins ≡ number_of won ts)
    × (r.losses ≡ number_of lost ts)
    × (r.breakeven ≡ number_of even ts)
    × (r.open_trades ≡ number_of running ts)
    × (r.trades ≡ r.wins + r.losses + r.breakeven + r.open_trades)
    × (grouped_stats r.by_strategy ≡ r.wins + r.losses + r.breakeven)
    × (grouped_stats r.by_symbol ≡ r.wins + r.losses + r.breakeven)

-- The figures of a report are those of its trades, whatever they are: the number of trades is theirs,
-- a trade counts as a win, a loss or breakeven by its outcome and else as open, these make up the
-- number of trades, and the groups by strategy, like the groups by symbol, hold together exactly the
-- wins, the losses and the breakeven trades.
pub aggregate_counts : (ts : List Trade) → Figures ts
unfolding aggregate grouped
aggregate_counts ts =
    let s = count_all ts no_sums in
    let (a, b, c, d) = count_all-Agree ts no_sums (refl, refl, refl, refl) in
    let (n, w, l, e, o) = count_all-Tallied ts no_sums in
    (
      omega arith,
      omega arith,
      omega arith,
      omega arith,
      omega arith,
      a,
      grouped_stats-finalize s.by_strategy ∙ c ∙ b,
      grouped_stats-finalize s.by_symbol ∙ d ∙ b,
    )
