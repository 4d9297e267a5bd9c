-- ===== src/Parser/Commands.antt =====
-- internal/parser/parser.go: `Parse` and the commands beside the opening.
pub mod Safe
use joinanny.Base.{
  ℕ, String, Bool, true, false, not, ◌&&◌, ◌||◌, Option, none, some, List, [], ◌∷◌, ◌==◌,
  if◌then◌else◌, length,
}
use joinanny.Base.Int.{ℤ, pos, leb_ℤ}
use joinanny.Base.Text.{trim_space, equal_fold}
use joinanny.Base.Text.Case.{to_lower}
use joinanny.Base.Text.Words.{fields}
use text.Mathlib.Text.{◌==◌ as str_eq}
use joinanny.Decimal.{Decimal, new_from_int}
use joinanny.Domain.{IntentType, OpenIntent, CloseIntent, OrderSize, Intent}
use joinanny.Orders.Store.{zero_decimal}
use joinanny.Parser.{
  Refusal, Answer, accepted, refused, ◌>>=◌, ◌>>◌, require, token, word_is, no_intent,
  parse_percent, parse_size, parse_plan_id, normalize_symbol, opening_of,
}

unfoldable pub parse_open : ℤ → String → List String → Answer Intent
unfolding opening_of
parse_open max_leverage raw tokens = opening_of max_leverage tokens >>= λ o.
    accepted (record (no_intent IntentType.open_position raw) { opening = some o })

abbrev pub close_of : String → Bool → Option Decimal → CloseIntent
close_of symbol all percent = record {
  symbol = symbol;
  all = all;
  percent = elim percent [ none ↦ zero_decimal | some p ↦ p ];
  has_percent = elim percent [ none ↦ false | some p ↦ true ];
  resolved_percent = elim percent [ none ↦ new_from_int (pos 100) | some p ↦ p ];
  entry_confirmation_id = "";
}

unfoldable pub close_percent : List String → Answer (Option Decimal)
unfolding parse_percent
close_percent tokens =
    if length tokens == 3
    then (parse_percent (pos 100) (token tokens 2) >>= λ p. accepted (some p))
    else accepted none

unfoldable pub closing_of : List String → Answer CloseIntent
unfolding close_percent normalize_symbol
closing_of tokens =
    if not (length tokens == 2 || length tokens == 3)
    then refused Refusal.close_format
    else if equal_fold (token tokens 1) "all"
    then require (length tokens == 2) Refusal.close_all_percent >> accepted (close_of "" true none)
    else (do
      symbol ← normalize_symbol (token tokens 1)
      percent ← close_percent tokens
      accepted (close_of symbol false percent))

unfoldable pub parse_close : String → List String → Answer Intent
unfolding closing_of
parse_close raw tokens = closing_of tokens >>= λ c.
    accepted (record (no_intent IntentType.close_position raw) { closing = some c })

abbrev pub breakeven_of : String → String → Intent
breakeven_of raw symbol = record (no_intent IntentType.breakeven raw) {
  breakeven = some (record { symbol = symbol });
}

unfoldable pub parse_breakeven : String → List String → Answer Intent
unfolding normalize_symbol
parse_breakeven raw tokens = do
  require (length tokens == 2) Refusal.breakeven_format
  symbol ← normalize_symbol (token tokens 1)
  accepted (breakeven_of raw symbol)

unfoldable pub parse_move_stop : String → List String → Answer Intent
unfolding normalize_symbol
parse_move_stop raw tokens = do
  require
      (length tokens == 5
        && equal_fold (token tokens 1) "sl"
        && equal_fold (token tokens 3) "to"
        && equal_fold (token tokens 4) "be")
      Refusal.move_format
  symbol ← normalize_symbol (token tokens 2)
  accepted (breakeven_of raw symbol)

unfoldable pub parse_trail : String → List String → Answer Intent
unfolding normalize_symbol parse_percent
parse_trail raw tokens = do
  require (length tokens == 3) Refusal.trail_format
  symbol ← normalize_symbol (token tokens 1)
  rate ← parse_percent (pos 10) (token tokens 2)
  accepted (record (no_intent IntentType.trail raw) {
    trail = some (record { symbol = symbol; callback_rate = rate });
  })

unfoldable pub parse_add : String → List String → Answer Intent
unfolding normalize_symbol parse_size
parse_add raw tokens = do
  require (length tokens == 4) Refusal.add_format
  symbol ← normalize_symbol (token tokens 1)
  size ← parse_size (token tokens 2) (token tokens 3)
  accepted (record (no_intent IntentType.add_size raw) {
    add = some (record { symbol = symbol; size = size });
  })

unfoldable pub parse_plan_status : String → List String → Answer Intent
unfolding parse_plan_id
parse_plan_status raw tokens = do
  require (length tokens == 3 && word_is tokens 2 "status") Refusal.plan_format
  id ← parse_plan_id (token tokens 1)
  accepted (record (no_intent IntentType.plan_status raw) {
    plan_status = some (record { plan_id = id });
  })

-- The `switch` of `Parse` on the first word.
unfoldable pub parse_word : ℤ → String → String → List String → Answer Intent
unfolding parse_open parse_close parse_breakeven parse_move_stop parse_trail parse_add
    parse_plan_status
parse_word max_leverage word raw tokens =
    if str_eq word "long" || str_eq word "short"
    then parse_open max_leverage raw tokens
    else if str_eq word "close"
    then parse_close raw tokens
    else if str_eq word "be"
    then parse_breakeven raw tokens
    else if str_eq word "move"
    then parse_move_stop raw tokens
    else if str_eq word "trail"
    then parse_trail raw tokens
    else if str_eq word "add"
    then parse_add raw tokens
    else if str_eq word "status" || str_eq word "/status"
    then accepted (no_intent IntentType.status raw)
    else if str_eq word "plan"
    then parse_plan_status raw tokens
    else refused Refusal.unknown_command

unfoldable pub parse_tokens : ℤ → String → List String → Answer Intent
unfolding parse_word
parse_tokens max_leverage raw [] = refused Refusal.empty_command
parse_tokens max_leverage raw (first ∷ rest) =
    parse_word max_leverage (to_lower first) raw (first ∷ rest)

-- `New`: 20 where no limit is given.
abbrev pub limit_or_default : ℤ → ℤ
limit_or_default max_leverage = if leb_ℤ max_leverage (pos 0) then pos 20 else max_leverage

-- `Parse`.
unfoldable pub parse_command : ℤ → String → Answer Intent
unfolding parse_tokens
parse_command max_leverage text =
    let raw = trim_space text in
    if str_eq raw ""
    then refused Refusal.empty_command
    else parse_tokens (limit_or_default max_leverage) raw (fields raw)
