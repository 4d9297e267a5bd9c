-- ===== src/Decimal/Text.antt =====
-- internal/decimal/decimal.go: `Parse` and `String`. The source checks the digits twice, by `unicode.IsDigit` and by `big.Int.SetString`; a text that fails
-- one of the two is `non_digit` here, so the error does not tell which.
pub mod Digits
pub mod RoundTrip
use Prim.Native.String.{String}
use joinanny.Base.{
  ℕ, zero, suc, ◌+◌, ◌-◌, ◌*◌, ◌/◌, ◌%◌, Bool, true, false, ◌&&◌, Option, none, some, List, [], ◌∷◌,
  ◌++◌, ltb, leb, ◌==◌, if◌then◌else◌, length, take, drop,
}
use joinanny.Base.Int.{ℤ, pos, pos_part, neg_part, minus}
use joinanny.Base.Text.{trim_space}
use joinanny.Base.Text.Codes.{codes, of_codes}
use joinanny.Decimal.{Decimal, decimal_zero, coefficient, normalize}
use joinanny.Decimal.Normal.{magnitude}

pub data ParseError : Type 0 where
  empty no_digits many_points non_digit : ParseError

pub data Parsed : Type 0 where
  parsed : Decimal → Parsed
  malformed : ParseError → Parsed

-- `strings.Split` at the point: the first part and the further ones.
unfoldable pub split_point : List ℕ → List ℕ × List (List ℕ)
split_point [] = ([], [])
split_point (c ∷ cs) =
    let rest = split_point cs in if c == b'.' then ([], rest.0 ∷ rest.1) else (c ∷ rest.0, rest.1)

unfoldable pub all_digits : List ℕ → Bool
all_digits [] = true
all_digits (c ∷ cs) = leb b'0' c && leb c b'9' && all_digits cs

-- The number that digits spell behind a number.
abbrev pub read : ℕ → List ℕ → ℕ
read n [] = n
read n (c ∷ cs) = read (n * 10 + (c - b'0')) cs

abbrev pub signed : Bool → ℕ → ℤ
signed true n = minus n
signed false n = pos n

unfoldable pub parse_digits : Bool → List ℕ → List ℕ → Parsed
parse_digits negative whole fraction =
    if length (whole ++ fraction) == 0
    then malformed no_digits
    else if all_digits (whole ++ fraction)
    then parsed (
        normalize (record {
          value = some (signed negative (read 0 (whole ++ fraction)));
          scale = length fraction;
        }))
    else malformed non_digit

unfoldable pub parse_parts : Bool → List ℕ × List (List ℕ) → Parsed
parse_parts negative (whole, []) = parse_digits negative whole []
parse_parts negative (whole, fraction ∷ []) = parse_digits negative whole fraction
parse_parts negative (whole, fraction ∷ more ∷ rest) = malformed many_points

-- `Parse` behind the sign.
unfoldable pub parse_unsigned : Bool → List ℕ → Parsed
parse_unsigned negative [] = malformed no_digits
parse_unsigned negative (c ∷ cs) = parse_parts negative (split_point (c ∷ cs))

unfoldable pub parse_codes : List ℕ → Parsed
parse_codes [] = malformed empty
parse_codes (c ∷ cs) =
    if c == b'+'
    then parse_unsigned false cs
    else if c == b'-'
    then parse_unsigned true cs
    else parse_unsigned false (c ∷ cs)

-- `Parse`.
unfoldable pub parse : String → Parsed
parse input = parse_codes (codes (trim_space input))

-- `big.Int.String` of a number that is not negative, behind the digits that are there already. The
-- number itself is fuel enough: each round divides it by ten.
unfoldable pub print_from : ℕ → ℕ → List ℕ → List ℕ
print_from zero n out = out
print_from (suc fuel) n out = elim (n == 0) [
  | true ↦ out
  | false ↦ print_from fuel (n / 10) ((b'0' + n % 10) ∷ out)
]

unfoldable pub zeros : ℕ → List ℕ
zeros zero = []
zeros (suc n) = b'0' ∷ zeros n

-- The digits with zeros before them where there are no more than the fraction has.
unfoldable pub padded : ℕ → ℕ → List ℕ
padded scale n =
    let digits = print_from n n [] in
    if leb (length digits) scale then zeros (scale - length digits + 1) ++ digits else digits

unfoldable pub sign_codes : ℤ → List ℕ
sign_codes v = if ltb 0 (neg_part v) then b'-' ∷ [] else []

-- The point before the last digits, as many as the scale says.
unfoldable pub with_point : ℕ → List ℕ → List ℕ
with_point scale digits =
    take (length digits - scale) digits ++ b'.' ∷ drop (length digits - scale) digits

unfoldable pub print_normal : ℤ → ℕ → List ℕ
print_normal v scale =
    if magnitude v == 0
    then b'0' ∷ []
    else if scale == 0
    then sign_codes v ++ print_from (magnitude v) (magnitude v) []
    else sign_codes v ++ with_point scale (padded scale (magnitude v))

-- `String`.
unfoldable pub to_string : Decimal → String
to_string d = let d' = normalize d in of_codes (print_normal (coefficient d') d'.scale)
