-- ===== src/Parser.antt =====
-- internal/parser/parser.go: the commands of the chat. A refusal stands for the message that the source
-- returns; letters and digits are the ASCII ones.
pub mod Commands
pub mod Opened
use Prim.Native.Char.{code}
use Prim.Native.String.{String}
use Prim.Native.String as Chars
use joinanny.Base.{
  ℕ, zero, suc, Bool, true, false, not, ◌&&◌, ◌||◌, Option, none, some, List, [], ◌∷◌, leb, ◌==◌,
  if◌then◌else◌, length,
}
use joinanny.Base.Int.{ℤ, pos, leb_ℤ}
use joinanny.Base.Text.{trim_space, equal_fold}
use joinanny.Base.Text.Case.{to_upper, to_lower}
use joinanny.Base.Text.Words.{fields, without_slash, before_suffix}
use text.Mathlib.Text.{◌==◌ as str_eq}
use joinanny.Decimal.{Decimal, decimal_zero, new_from_int, is_positive, is_lt, is_eq, is_gt, cmp}
use joinanny.Decimal.Text.{parse, Parsed, parsed, malformed}
use joinanny.Domain.{
  IntentType, Side, SizeKind, OrderSize, OpenIntent, CloseIntent, BreakevenIntent, TrailIntent,
  AddIntent, PlanStatusIntent, Intent,
}
use joinanny.Orders.Store.{zero_decimal}
use joinanny.Binance.Quantity.{atoi}

pub data Refusal : Type 0 where
  empty_command unknown_command : Refusal
  open_format no_entry no_stop no_target bad_plan_tag : Refusal
  close_format close_all_percent breakeven_format move_format trail_format add_format plan_format :
      Refusal
  leverage_suffix bad_leverage leverage_too_high : Refusal
  usdt_suffix no_size not_a_number not_above_zero : Refusal
  percent_suffix percent_too_high bad_plan : Refusal
  no_symbol bad_symbol no_base_asset : Refusal
  stop_side target_side bad_side : Refusal

pub data Answer (A : Type 0) : Type 0 where
  accepted : A → Answer A
  refused : Refusal → Answer A

infixl 5 ◌>>=◌ ◌>>◌
abbrev pub ◌>>=◌ : {A B : Type 0} → Answer A → (A → Answer B) → Answer B
accepted a >>= f = f a
refused r >>= f = refused r

abbrev pub ◌>>◌ : {A B : Type 0} → Answer A → Answer B → Answer B
m >> k = m >>= λ _. k

abbrev pub require : Bool → Refusal → Answer (Unit {0})
require true r = accepted tt
require false r = refused r

-- `tokens[i]`, behind a test of the number of tokens.
abbrev pub token : List String → ℕ → String
token [] i = ""
token (t ∷ ts) zero = t
token (t ∷ ts) (suc i) = token ts i

unfoldable pub parse_positive : String → Answer Decimal
parse_positive text = elim (parse text) [
  | malformed e ↦ refused Refusal.not_a_number
  | parsed d ↦ if is_positive d then accepted d else refused Refusal.not_above_zero
]

abbrev pub cut : Option String → Refusal → Answer String
cut none r = refused r
cut (some front) r = accepted front

-- `parseClosePercent` and `parseTrailPercent`, by the greatest percentage.
unfoldable pub parse_percent : ℤ → String → Answer Decimal
unfolding parse_positive
parse_percent most text = do
  number ← cut (before_suffix "%" (trim_space text)) Refusal.percent_suffix
  percent ← parse_positive number
  require (not (is_gt (cmp percent (new_from_int most)))) Refusal.percent_too_high
  accepted percent

abbrev pub known_leverage : Option ℤ → Answer ℤ
known_leverage none = refused Refusal.bad_leverage
known_leverage (some n) = accepted n

unfoldable pub parse_leverage : ℤ → String → Answer ℤ
parse_leverage max_leverage text = do
  number ← cut (before_suffix "x" (to_lower (trim_space text))) Refusal.leverage_suffix
  leverage ← known_leverage (atoi number)
  require (not (leb_ℤ leverage (pos 0))) Refusal.bad_leverage
  require (leb_ℤ leverage max_leverage) Refusal.leverage_too_high
  accepted leverage

abbrev pub sized_order : SizeKind → Decimal → Answer OrderSize
sized_order kind value = accepted (record { kind = kind; amount = value })

unfoldable pub parse_usdt : String → Answer OrderSize
unfolding parse_positive
parse_usdt text = do
  number ← cut (before_suffix "usdt" (to_lower (trim_space text))) Refusal.usdt_suffix
  value ← parse_positive number
  sized_order SizeKind.usdt value

unfoldable pub parse_size : String → String → Answer OrderSize
unfolding parse_usdt parse_positive
parse_size kind_token amount_token =
    let kind = to_lower kind_token in
    if str_eq kind "size"
    then parse_usdt amount_token
    else if str_eq kind "qty"
    then (parse_positive amount_token >>= sized_order SizeKind.qty)
    else refused Refusal.no_size

unfoldable pub parse_plan_id : String → Answer String
parse_plan_id text =
    let id = trim_space text in
    if str_eq id "1" || str_eq id "2" || str_eq id "3"
    then accepted id
    else refused Refusal.bad_plan

unfoldable pub only_letters_and_digits : String → Bool
only_letters_and_digits String.[] = true
only_letters_and_digits (String.◌∷◌ c s) =
    (leb b'0' (code c) && leb (code c) b'9' || leb b'A' (code c) && leb (code c) b'Z')
    && only_letters_and_digits s

unfoldable pub with_quote : String → Option String → Answer String
with_quote symbol none = accepted (Chars.◌++◌ symbol "USDT")
with_quote symbol (some base) =
    if str_eq base "" then refused Refusal.no_base_asset else accepted symbol

unfoldable pub normalize_symbol : String → Answer String
unfolding only_letters_and_digits with_quote
normalize_symbol text =
    let symbol = without_slash (to_upper (trim_space text)) in
    if str_eq symbol ""
    then refused Refusal.no_symbol
    else if only_letters_and_digits symbol
    then with_quote symbol (before_suffix "USDT" symbol)
    else refused Refusal.bad_symbol

unfoldable pub side_of : String → Side
side_of text =
    if str_eq text "long"
    then Side.long
    else if str_eq text "short"
    then Side.short
    else Side.other text

unfoldable pub validate_stop_and_take_profit :
    Side → Decimal → Decimal → Decimal → Answer (Unit {0})
validate_stop_and_take_profit Side.long entry stop target = do
  require (is_lt (cmp stop entry)) Refusal.stop_side
  require (is_gt (cmp target entry)) Refusal.target_side
validate_stop_and_take_profit Side.short entry stop target = do
  require (is_gt (cmp stop entry)) Refusal.stop_side
  require (is_lt (cmp target entry)) Refusal.target_side
validate_stop_and_take_profit (Side.other s) entry stop target = refused Refusal.bad_side

abbrev pub word_is : List String → ℕ → String → Bool
word_is tokens i word = str_eq (to_lower (token tokens i)) word

abbrev pub no_intent : IntentType → String → Intent
no_intent kind raw = record {
  kind = kind;
  raw_text = raw;
  opening = none;
  closing = none;
  breakeven = none;
  trail = none;
  add = none;
  plan_status = none;
}

unfoldable pub parse_plan_tag : List String → Answer String
unfolding parse_plan_id
parse_plan_tag tokens =
    if length tokens == 13
    then require (word_is tokens 11 "plan") Refusal.bad_plan_tag >> parse_plan_id (token tokens 12)
    else accepted ""

-- `parseOpen`: the intent's opening.
unfoldable pub opening_of : ℤ → List String → Answer OpenIntent
unfolding normalize_symbol parse_leverage parse_positive parse_size parse_plan_tag
    validate_stop_and_take_profit side_of
opening_of max_leverage tokens = do
  let side = side_of (to_lower (token tokens 0))
  require (length tokens == 11 || length tokens == 13) Refusal.open_format
  symbol ← normalize_symbol (token tokens 1)
  leverage ← parse_leverage max_leverage (token tokens 2)
  require (word_is tokens 3 "entry") Refusal.no_entry
  entry ← parse_positive (token tokens 4)
  require (word_is tokens 5 "sl") Refusal.no_stop
  stop ← parse_positive (token tokens 6)
  require (word_is tokens 7 "tp") Refusal.no_target
  target ← parse_positive (token tokens 8)
  size ← parse_size (token tokens 9) (token tokens 10)
  plan ← parse_plan_tag tokens
  validate_stop_and_take_profit side entry stop target
  accepted (record {
    symbol = symbol;
    side = side;
    leverage = leverage;
    entry = entry;
    stop_loss = stop;
    take_profits = target ∷ [];
    size = size;
    plan_id = plan;
    strategy = "";
    models = [];
    reason = "";
    confidence = pos 0;
    campaign_id = "";
  })
