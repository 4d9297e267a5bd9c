-- ===== src/Parser/Commands/Safe.antt =====
-- `Parse` of internal/parser/parser.go: the openings among the commands that it accepts.
use text.Mathlib.Text.{◌==◌ as str_eq}
use joinanny.Base.{
  String, ◌≡◌, subst, Bool, true, false, ◌||◌, ◌&&◌, ◌==◌, length, some, List, [], ◌∷◌,
  if◌then◌else◌,
}
use joinanny.Base.Int.{ℤ, pos}
use joinanny.Base.Text.{trim_space, equal_fold}
use joinanny.Base.Text.Case.{to_lower}
use joinanny.Base.Text.Words.{fields}
use joinanny.Domain.{IntentType, OpenIntent, Intent}
use joinanny.Parser.{
  Refusal, Answer, accepted, refused, require, token, word_is, no_intent, parse_percent, parse_size,
  parse_plan_id, normalize_symbol, opening_of,
}
use joinanny.Parser.Commands.{
  parse_open, closing_of, parse_close, parse_breakeven, parse_move_stop, parse_trail, parse_add,
  parse_plan_status, parse_word, parse_tokens, limit_or_default, parse_command,
}
use joinanny.Parser.Opened.{IsSafe, accepted-same, answer-rule, opening_of-IsSafe}

module _ (max_leverage : ℤ) where
  abbrev pub OpensSafely : Intent → Type 0
  OpensSafely i = (o : OpenIntent) → i.opening ≡ some o → IsSafe max_leverage o

  abbrev Keeps : Answer Intent → Type 0
  Keeps answer = (i : Intent) → answer ≡ accepted i → OpensSafely i

  parse_open-Keeps :
      (raw : String) (tokens : List String) → Keeps (parse_open max_leverage raw tokens)
  unfolding parse_open
  parse_open-Keeps raw tokens i h = answer-rule (opening_of max_leverage tokens) _ i h (λ o e h1.
      subst OpensSafely (accepted-same _ i h1) (λ p q.
        let same : o ≡ p = cc in
        subst (IsSafe max_leverage) same (opening_of-IsSafe max_leverage tokens o e)))

  parse_close-Keeps : (raw : String) (tokens : List String) → Keeps (parse_close raw tokens)
  unfolding parse_close
  parse_close-Keeps raw tokens i h =
      answer-rule (closing_of tokens) _ i h
        (λ c e h1. subst OpensSafely (accepted-same _ i h1) (λ p q. cc q))

  parse_breakeven-Keeps : (raw : String) (tokens : List String) → Keeps (parse_breakeven raw tokens)
  unfolding parse_breakeven
  parse_breakeven-Keeps raw tokens i h =
      answer-rule (require (length tokens == 2) Refusal.breakeven_format) _ i h (λ u d h0.
        answer-rule (normalize_symbol (token tokens 1)) _ i h0
          (λ symbol e h1. subst OpensSafely (accepted-same _ i h1) (λ p q. cc q)))

  parse_move_stop-Keeps : (raw : String) (tokens : List String) → Keeps (parse_move_stop raw tokens)
  unfolding parse_move_stop
  parse_move_stop-Keeps raw tokens i h =
      answer-rule
        (require
          (length tokens == 5
            && equal_fold (token tokens 1) "sl"
            && equal_fold (token tokens 3) "to"
            && equal_fold (token tokens 4) "be")
          Refusal.move_format)
        _ i h
        (λ u d h0.
          answer-rule (normalize_symbol (token tokens 2)) _ i h0
            (λ symbol e h1. subst OpensSafely (accepted-same _ i h1) (λ p q. cc q)))

  parse_trail-Keeps : (raw : String) (tokens : List String) → Keeps (parse_trail raw tokens)
  unfolding parse_trail
  parse_trail-Keeps raw tokens i h =
      answer-rule (require (length tokens == 3) Refusal.trail_format) _ i h (λ u d h0.
        answer-rule (normalize_symbol (token tokens 1)) _ i h0 (λ symbol e h1.
          answer-rule (parse_percent (pos 10) (token tokens 2)) _ i h1
            (λ rate f h2. subst OpensSafely (accepted-same _ i h2) (λ p q. cc q))))

  parse_add-Keeps : (raw : String) (tokens : List String) → Keeps (parse_add raw tokens)
  unfolding parse_add
  parse_add-Keeps raw tokens i h =
      answer-rule (require (length tokens == 4) Refusal.add_format) _ i h (λ u d h0.
        answer-rule (normalize_symbol (token tokens 1)) _ i h0 (λ symbol e h1.
          answer-rule (parse_size (token tokens 2) (token tokens 3)) _ i h1
            (λ size f h2. subst OpensSafely (accepted-same _ i h2) (λ p q. cc q))))

  parse_plan_status-Keeps :
      (raw : String) (tokens : List String) → Keeps (parse_plan_status raw tokens)
  unfolding parse_plan_status
  parse_plan_status-Keeps raw tokens i h =
      answer-rule (require (length tokens == 3 && word_is tokens 2 "status") Refusal.plan_format) _
        i h
        (λ u d h0.
          answer-rule (parse_plan_id (token tokens 1)) _ i h0
            (λ id e h1. subst OpensSafely (accepted-same _ i h1) (λ p q. cc q)))

  status-Keeps : (raw : String) → Keeps (accepted (no_intent IntentType.status raw))
  status-Keeps raw i h = subst OpensSafely (accepted-same _ i h) (λ p q. cc q)

  -- One test of the switch.
  either-Keeps : (t : Bool) (a b : Answer Intent) → Keeps a → Keeps b → Keeps (if t then a else b)
  either-Keeps true a b h k = h
  either-Keeps false a b h k = k

  parse_word-Keeps :
      (word raw : String) (tokens : List String) → Keeps (parse_word max_leverage word raw tokens)
  unfolding parse_word
  parse_word-Keeps word raw tokens =
      either-Keeps (str_eq word "long" || str_eq word "short") _ _ (parse_open-Keeps raw tokens) (
        either-Keeps (str_eq word "close") _ _ (parse_close-Keeps raw tokens) (
          either-Keeps (str_eq word "be") _ _ (parse_breakeven-Keeps raw tokens) (
            either-Keeps (str_eq word "move") _ _ (parse_move_stop-Keeps raw tokens) (
              either-Keeps (str_eq word "trail") _ _ (parse_trail-Keeps raw tokens) (
                either-Keeps (str_eq word "add") _ _ (parse_add-Keeps raw tokens) (
                  either-Keeps (str_eq word "status" || str_eq word "/status") _ _
                    (status-Keeps raw)
                    (either-Keeps (str_eq word "plan") _ _ (parse_plan_status-Keeps raw tokens)
                      (λ i h. cc h))))))))

  parse_tokens-Keeps :
      (raw : String) (tokens : List String) → Keeps (parse_tokens max_leverage raw tokens)
  unfolding parse_tokens
  parse_tokens-Keeps raw [] i h = cc h
  parse_tokens-Keeps raw (first ∷ rest) i h =
      parse_word-Keeps (to_lower first) raw (first ∷ rest) i h

-- Whatever text a user sends, an opening that the parser accepts can be placed: its leverage is above 0
-- and within the limit (20 where none is set), its entry, stop, target and size are positive, it has
-- one target, its side is long or short, and the stop lies on the losing side of the entry and the
-- target on the winning one.
pub parse_command-OpensSafely :
    (max_leverage : ℤ) (text : String) (i : Intent)
    → parse_command max_leverage text ≡ accepted i
    → OpensSafely (limit_or_default max_leverage) i
unfolding parse_command
parse_command-OpensSafely max_leverage text =
    either-Keeps (limit_or_default max_leverage) (str_eq (trim_space text) "")
      (refused Refusal.empty_command) _ (λ i h. cc h)
      (parse_tokens-Keeps (limit_or_default max_leverage) (trim_space text)
        (fields (trim_space text)))
