-- ===== src/Parser/Opened.antt =====
-- internal/parser/parser.go: what the parser promises of an opening that it accepts.
use text.Mathlib.Text.{◌==◌ as str_eq}
use joinanny.Base.{
  String, ◌||◌, ◌==◌, length, ◌≡◌, refl, ap, subst, inl, inr, Bool, true, false, not, List, [], ◌∷◌,
  arith, Bool-cases,
}
use joinanny.Base.Int.{ℤ, pos, leb_ℤ}
use joinanny.Decimal.{Decimal, is_positive, is_lt, is_gt, cmp}
use joinanny.Base.Text.{trim_space}
use joinanny.Base.Text.Case.{to_lower}
use joinanny.Base.Text.Words.{before_suffix}
use joinanny.Binance.Quantity.{atoi}
use joinanny.Domain.{SizeKind, Side, OrderSize, OpenIntent}
use joinanny.Parser.{
  Refusal, Answer, accepted, refused, ◌>>=◌, require, cut, parse_positive, parse_leverage,
  known_leverage, sized_order, parse_usdt, side_of, token, word_is, parse_size,
  validate_stop_and_take_profit, parse_plan_tag, normalize_symbol, opening_of,
}

-- The stop is on the losing side of the entry, the target on the winning one.
abbrev pub OnSides : Side → Decimal → Decimal → Decimal → Type 0
OnSides Side.long entry stop target =
    (is_lt (cmp stop entry) ≡ true) × (is_gt (cmp target entry) ≡ true)
OnSides Side.short entry stop target =
    (is_gt (cmp stop entry) ≡ true) × (is_lt (cmp target entry) ≡ true)
OnSides (Side.other s) entry stop target = false ≡ true

pub record IsSafe (max_leverage : ℤ) (o : OpenIntent) : Type 0 where
  pub some_leverage : leb_ℤ o.leverage (pos 0) ≡ false
  pub leverage_within : leb_ℤ o.leverage max_leverage ≡ true
  pub entry : is_positive o.entry ≡ true
  pub stop : is_positive o.stop_loss ≡ true
  pub size : is_positive o.size.amount ≡ true
  pub target : Decimal
  pub one_target : o.take_profits ≡ target ∷ []
  pub target_positive : is_positive target ≡ true
  pub sides : OnSides o.side o.entry o.stop_loss target

pub accepted-same : {A : Type 0} (a b : A) → accepted a ≡ accepted b → a ≡ b
accepted-same a b h = ap (λ r. elim r [ accepted x ↦ x | refused e ↦ a ]) h

-- A chain that is accepted, step by step.
pub answer-rule :
    {A B : Type 0} {P : Type 0} (m : Answer A) (f : A → Answer B) (b : B)
    → (m >>= f) ≡ accepted b
    → ((a : A) → m ≡ accepted a → f a ≡ accepted b → P)
    → P
answer-rule (accepted a) f b h goal = goal a refl h
answer-rule (refused r) f b h goal = absurd (cc h)

require-true : (t : Bool) (r : Refusal) (u : Unit {0}) → require t r ≡ accepted u → t ≡ true
require-true true r u h = refl
require-true false r u h = cc h

parse_positive-positive :
    (text : String) (d : Decimal) → parse_positive text ≡ accepted d → is_positive d ≡ true
unfolding parse_positive
parse_positive-positive text d h = ground (arith, h)

parse_leverage-within :
    (max_leverage : ℤ) (text : String) (n : ℤ)
    → parse_leverage max_leverage text ≡ accepted n
    → (leb_ℤ n (pos 0) ≡ false) × (leb_ℤ n max_leverage ≡ true)
unfolding parse_leverage
parse_leverage-within max_leverage text n h =
    answer-rule (cut (before_suffix "x" (to_lower (trim_space text))) Refusal.leverage_suffix) _ n h
      (λ number e h1. answer-rule (known_leverage (atoi number)) _ n h1 (λ k f h2.
        answer-rule (require (not (leb_ℤ k (pos 0))) Refusal.bad_leverage) _ n h2 (λ u g h3.
          answer-rule (require (leb_ℤ k max_leverage) Refusal.leverage_too_high) _ n h3 (λ v i h4.
            let same : k ≡ n = accepted-same k n h4 in
            let above = require-true (not (leb_ℤ k (pos 0))) Refusal.bad_leverage u g in
            let within = require-true (leb_ℤ k max_leverage) Refusal.leverage_too_high v i in
            subst (λ m. (leb_ℤ m (pos 0) ≡ false) × (leb_ℤ m max_leverage ≡ true)) same
              (ground arith, within)))))

sized_order-positive :
    (kind : SizeKind) (text : String) (size : OrderSize)
    → (parse_positive text >>= sized_order kind) ≡ accepted size
    → is_positive size.amount ≡ true
sized_order-positive kind text size h =
    answer-rule (parse_positive text) (sized_order kind) size h (λ value e h1.
      subst (λ z. is_positive z.amount ≡ true) (accepted-same _ size h1)
        (parse_positive-positive text value e))

parse_size-positive :
    (kind amount : String) (size : OrderSize)
    → parse_size kind amount ≡ accepted size
    → is_positive size.amount ≡ true
unfolding parse_size parse_usdt
parse_size-positive kind amount size h = elim (Bool-cases (str_eq (to_lower kind) "size")) [
  | inl usdt ↦
      let h1 : parse_usdt amount ≡ accepted size = rw (usdt, parse_size) at h in
      answer-rule (cut (before_suffix "usdt" (to_lower (trim_space amount))) Refusal.usdt_suffix) _
        size h1 (λ number e h2. sized_order-positive SizeKind.usdt number size h2)
  | inr other ↦ elim (Bool-cases (str_eq (to_lower kind) "qty")) [
    | inl counted ↦
        let h1 : (parse_positive amount >>= sized_order SizeKind.qty) ≡ accepted size =
          rw (other, counted, parse_size) at h in
        sized_order-positive SizeKind.qty amount size h1
    | inr neither ↦
        let refusal : refused Refusal.no_size ≡ accepted size =
          rw (other, neither, parse_size) at h in
        cc
  ]
]

validate-OnSides :
    (side : Side) (entry stop target : Decimal) (u : Unit {0})
    → validate_stop_and_take_profit side entry stop target ≡ accepted u
    → OnSides side entry stop target
unfolding validate_stop_and_take_profit
validate-OnSides Side.long entry stop target u h =
    answer-rule (require (is_lt (cmp stop entry)) Refusal.stop_side) _ u h
      (λ v e h1. (require-true _ Refusal.stop_side v e, require-true _ Refusal.target_side u h1))
validate-OnSides Side.short entry stop target u h =
    answer-rule (require (is_gt (cmp stop entry)) Refusal.stop_side) _ u h
      (λ v e h1. (require-true _ Refusal.stop_side v e, require-true _ Refusal.target_side u h1))
validate-OnSides (Side.other s) entry stop target u h = cc h

pub opening_of-IsSafe :
    (max_leverage : ℤ) (tokens : List String) (o : OpenIntent)
    → opening_of max_leverage tokens ≡ accepted o
    → IsSafe max_leverage o
unfolding opening_of
opening_of-IsSafe max_leverage tokens o h =
    answer-rule (require (length tokens == 11 || length tokens == 13) Refusal.open_format) _ o h
      (λ u0 e0 h0. answer-rule (normalize_symbol (token tokens 1)) _ o h0 (λ symbol e1 h1.
        answer-rule (parse_leverage max_leverage (token tokens 2)) _ o h1 (λ leverage e2 h2.
          answer-rule (require (word_is tokens 3 "entry") Refusal.no_entry) _ o h2 (λ u3 e3 h3.
            answer-rule (parse_positive (token tokens 4)) _ o h3 (λ entry e4 h4.
              answer-rule (require (word_is tokens 5 "sl") Refusal.no_stop) _ o h4 (λ u5 e5 h5.
                answer-rule (parse_positive (token tokens 6)) _ o h5 (λ stop e6 h6.
                  answer-rule (require (word_is tokens 7 "tp") Refusal.no_target) _ o h6
                    (λ u7 e7 h7.
                      answer-rule (parse_positive (token tokens 8)) _ o h7 (λ target e8 h8.
                        answer-rule (parse_size (token tokens 9) (token tokens 10)) _ o h8
                          (λ size e9 h9. answer-rule (parse_plan_tag tokens) _ o h9 (λ plan e10 h10.
                            answer-rule
                              (validate_stop_and_take_profit (side_of (to_lower (token tokens 0)))
                                entry stop target)
                              _ o h10
                              (λ u11 e11 h11.
                                let (some_leverage, within) =
                                  parse_leverage-within max_leverage (token tokens 2) leverage e2 in
                                subst (IsSafe max_leverage) (accepted-same _ o h11) (record {
                                  some_leverage = some_leverage;
                                  leverage_within = within;
                                  entry = parse_positive-positive (token tokens 4) entry e4;
                                  stop = parse_positive-positive (token tokens 6) stop e6;
                                  size =
                                      parse_size-positive (token tokens 9) (token tokens 10) size
                                        e9;
                                  target = target;
                                  one_target = refl;
                                  target_positive =
                                      parse_positive-positive (token tokens 8) target e8;
                                  sides =
                                      validate-OnSides (side_of (to_lower (token tokens 0))) entry
                                        stop target u11 e11;
                                })))))))))))))
