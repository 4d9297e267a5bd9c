-- ===== src/Journal.antt =====
-- internal/journal: journal.go's trades and their service, and memory.go's repository. A
-- `time.Time` is a number, 0 the zero time.
pub mod Rows
pub mod Once
pub mod Report
use joinanny.Base.{
  ℕ, String, Bool, true, false, not, Option, none, some, List, ltb, ◌==◌, if◌then◌else◌,
}
use joinanny.Base.Int.{ℤ}
use joinanny.Base.Text.{trim_space}
use joinanny.Base.Table.{Table, lookup, insert}
use text.Mathlib.Text.{◌==◌ as str_eq}
use joinanny.Decimal.{Decimal}

-- `unset` is the empty string, `other` any string that is no constant.
pub data Outcome : Type 0 where
  unset opened win loss breakeven : Outcome
  other : String → Outcome

pub valid : Outcome → Bool
valid Outcome.opened = true
valid Outcome.win = true
valid Outcome.loss = true
valid Outcome.breakeven = true
valid _ = false

unfoldable pub closed : Outcome → Bool
closed Outcome.win = true
closed Outcome.loss = true
closed Outcome.breakeven = true
closed _ = false

abbrev pub is_opened : Outcome → Bool
is_opened Outcome.opened = true
is_opened _ = false

pub record Trade : Type 0 where
  pub id : String
  pub user_id : ℕ
  pub campaign_id : String
  pub confirmation_id : String
  pub symbol : String
  pub side : String
  pub strategy : String
  pub models : List String
  pub reason : String
  pub confidence : ℤ
  pub leverage : ℤ
  pub mode : String
  pub entry : Decimal
  pub exit : Decimal
  pub stop_loss : Decimal
  pub take_profit : Decimal
  pub size_usdt : Decimal
  pub quantity : Decimal
  pub pnl_usdt : Decimal
  pub outcome : Outcome
  pub opened_at : ℕ
  pub closed_at : ℕ

pub record CloseUpdate : Type 0 where
  pub exit : Decimal
  pub pnl_usdt : Decimal
  pub outcome : Outcome
  pub closed_at : ℕ
  pub mode : String

pub data JournalError : Type 0 where
  no_id bad_user no_symbol bad_outcome not_final : JournalError

-- `MemoryRepository.Save`.
unfoldable pub save : Trade → Table Trade → Table Trade
save t trades =
    if is_opened t.outcome
    then elim (lookup t.id trades) [ none ↦ insert t.id t trades | some _ ↦ trades ]
    else insert t.id t trades

pub close_row : Trade → CloseUpdate → Trade
close_row t u = record t {
  exit = u.exit;
  pnl_usdt = u.pnl_usdt;
  outcome = u.outcome;
  closed_at = u.closed_at;
  mode = if str_eq u.mode "" then t.mode else u.mode;
}

pub close_found : String → CloseUpdate → Option Trade → Table Trade → Option Trade × Table Trade
close_found id u none trades = (none, trades)
close_found id u (some t) trades =
    if is_opened t.outcome
    then (some (close_row t u), insert id (close_row t u) trades)
    else (none, trades)

-- `MemoryRepository.Close`; `none` is `ok == false`.
unfoldable pub close_trade : String → CloseUpdate → Table Trade → Option Trade × Table Trade
close_trade id u trades = close_found id u (lookup id trades) trades

pub default_outcome : Outcome → Outcome → Outcome
default_outcome d Outcome.unset = d
default_outcome d o = o

-- `Service.Record`.
unfoldable pub record_trade : Trade → Table Trade → Option JournalError × Table Trade
record_trade t trades =
    let o = default_outcome Outcome.opened t.outcome in
    if str_eq (trim_space t.id) ""
    then (some no_id, trades)
    else if t.user_id == 0
    then (some bad_user, trades)
    else if str_eq (trim_space t.symbol) ""
    then (some no_symbol, trades)
    else if not (valid o)
    then (some bad_outcome, trades)
    else (none, save (record t { outcome = o }) trades)

-- What `Service.Close` returns: an error, or whether it closed a row.
pub data Closing : Type 0 where
  failed : JournalError → Closing
  answered : Option Trade → Closing

-- The update with its defaults filled in; `now` is the time that it takes where it has none.
abbrev pub dated : CloseUpdate → ℕ → CloseUpdate
dated u now = record u {
  outcome = default_outcome Outcome.breakeven u.outcome;
  closed_at = if u.closed_at == 0 then now else u.closed_at;
}

-- `Service.Close`.
unfoldable pub close_service : String → CloseUpdate → ℕ → Table Trade → Closing × Table Trade
close_service id u now trades =
    if str_eq (trim_space id) ""
    then (failed no_id, trades)
    else if not (closed (default_outcome Outcome.breakeven u.outcome))
    then (failed not_final, trades)
    else (answered (close_trade id (dated u now) trades).0, (close_trade id (dated u now) trades).1)
