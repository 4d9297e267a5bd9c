-- ===== src/Tests/Commands.antt =====
-- Commands of the chat and what the parser makes of them.
use joinanny.Base.{ℕ, String, ◌≡◌, refl, true, some, none, List, [], ◌∷◌}
use joinanny.Base.Int.{pos}
use joinanny.Decimal.{Decimal}
use joinanny.Domain.{IntentType, Side, SizeKind, OpenIntent, Intent}
use joinanny.Parser.{Refusal, Answer, accepted, refused, no_intent}
use joinanny.Parser.Commands.{limit_or_default, parse_command}
use joinanny.Parser.Commands.Safe.{OpensSafely, parse_command-OpensSafely}

abbrev whole : ℕ → Decimal
whole n = record { value = some (pos n); scale = 0 }

abbrev long_btc : OpenIntent
long_btc = record {
  symbol = "BTCUSDT";
  side = Side.long;
  leverage = pos 3;
  entry = whole 67500;
  stop_loss = whole 65000;
  take_profits = whole 72000 ∷ [];
  size = record { kind = SizeKind.usdt; amount = whole 100 };
  plan_id = "";
  strategy = "";
  models = [];
  reason = "";
  confidence = pos 0;
  campaign_id = "";
}

abbrev long_intent : Intent
long_intent =
    record (no_intent IntentType.open_position
      "long BTC 3x entry 67500 sl 65000 tp 72000 size 100usdt") { opening = some long_btc }

parsed_long :
    parse_command (pos 0) " long BTC 3x entry 67500 sl 65000 tp 72000 size 100usdt"
    ≡ accepted long_intent
unfolding parse_command joinanny.Parser.Commands.parse_tokens joinanny.Parser.Commands.parse_word
    joinanny.Parser.Commands.parse_open joinanny.Parser.opening_of joinanny.Parser.normalize_symbol
    joinanny.Parser.parse_leverage joinanny.Parser.parse_positive joinanny.Parser.parse_size
    joinanny.Parser.parse_plan_tag joinanny.Parser.validate_stop_and_take_profit
    joinanny.Parser.side_of joinanny.Parser.only_letters_and_digits joinanny.Parser.with_quote
    joinanny.Parser.parse_usdt joinanny.Base.Text.trim_space joinanny.Base.Text.Words.fields
    joinanny.Base.Text.Words.split_space joinanny.Base.Text.Words.not_empty
    joinanny.Base.Text.Words.without_slash joinanny.Base.Text.Words.before_suffix
    joinanny.Base.Text.Case.to_upper joinanny.Base.Text.Case.to_lower joinanny.Binance.Quantity.atoi
    joinanny.Binance.Quantity.atoi_codes joinanny.Binance.Quantity.atoi_unsigned
    joinanny.Decimal.Text.parse joinanny.Decimal.Text.parse_codes
    joinanny.Decimal.Text.parse_unsigned joinanny.Decimal.Text.parse_parts
    joinanny.Decimal.Text.parse_digits joinanny.Decimal.Text.split_point
    joinanny.Decimal.Text.all_digits joinanny.Decimal.normalize joinanny.Decimal.normalize_value
    joinanny.Decimal.strip joinanny.Decimal.sign joinanny.Decimal.is_positive joinanny.Decimal.cmp
    joinanny.Decimal.align joinanny.Decimal.align_normal
parsed_long = refl

parse_command-OpensSafely_example : OpensSafely (limit_or_default (pos 0)) long_intent
parse_command-OpensSafely_example =
    parse_command-OpensSafely (pos 0) " long BTC 3x entry 67500 sl 65000 tp 72000 size 100usdt"
      long_intent parsed_long

-- A stop above the entry of a long position.
wrong_stop :
    parse_command (pos 0) "long BTC 3x entry 67500 sl 68000 tp 72000 size 100usdt"
    ≡ refused Refusal.stop_side
unfolding parse_command joinanny.Parser.Commands.parse_tokens joinanny.Parser.Commands.parse_word
    joinanny.Parser.Commands.parse_open joinanny.Parser.opening_of joinanny.Parser.normalize_symbol
    joinanny.Parser.parse_leverage joinanny.Parser.parse_positive joinanny.Parser.parse_size
    joinanny.Parser.parse_plan_tag joinanny.Parser.validate_stop_and_take_profit
    joinanny.Parser.side_of joinanny.Parser.only_letters_and_digits joinanny.Parser.with_quote
    joinanny.Parser.parse_usdt joinanny.Base.Text.trim_space joinanny.Base.Text.Words.fields
    joinanny.Base.Text.Words.split_space joinanny.Base.Text.Words.not_empty
    joinanny.Base.Text.Words.without_slash joinanny.Base.Text.Words.before_suffix
    joinanny.Base.Text.Case.to_upper joinanny.Base.Text.Case.to_lower joinanny.Binance.Quantity.atoi
    joinanny.Binance.Quantity.atoi_codes joinanny.Binance.Quantity.atoi_unsigned
    joinanny.Decimal.Text.parse joinanny.Decimal.Text.parse_codes
    joinanny.Decimal.Text.parse_unsigned joinanny.Decimal.Text.parse_parts
    joinanny.Decimal.Text.parse_digits joinanny.Decimal.Text.split_point
    joinanny.Decimal.Text.all_digits joinanny.Decimal.normalize joinanny.Decimal.normalize_value
    joinanny.Decimal.strip joinanny.Decimal.sign joinanny.Decimal.is_positive joinanny.Decimal.cmp
    joinanny.Decimal.align joinanny.Decimal.align_normal
wrong_stop = refl
