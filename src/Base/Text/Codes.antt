-- ===== src/Base/Text/Codes.antt =====
-- Texts as the numbers of their characters.
use Prim.Native.Char.{Char, code}
use Prim.Native.String.{String}
use Prim.Native.Nat.{ℕ, zero, suc, ◌+◌, ◌≤◌, ◌<◌}
use mathlib.Core.Path.{◌≡◌, refl, ap, subst}
use mathlib.Core.Bool.{Bool, true, false, ◌&&◌, ◌||◌}
use mathlib.Core.List.{List, [], ◌∷◌}
use mathlib.Core.Logic.{◌⊎◌, inl, inr}
use native.Mathlib.Omega.{arith}
use joinanny.Base.Tests.{Bool-cases, ◌==◌, if◌then◌else◌, All}
use joinanny.Base.Text.{is_space, trim_left, trim_right, trim_space}

abbrev pub codes : String → List ℕ
codes String.[] = []
codes (String.◌∷◌ c s) = code c ∷ codes s

-- The character of a digit, of the point and of the minus sign; others are not asked for.
unfoldable pub char_of : ℕ → Char
char_of c =
    if c == b'-'
    then "-"
    else if c == b'.'
    then "."
    else if c == b'0'
    then "0"
    else if c == b'1'
    then "1"
    else if c == b'2'
    then "2"
    else if c == b'3'
    then "3"
    else if c == b'4'
    then "4"
    else if c == b'5'
    then "5"
    else if c == b'6'
    then "6"
    else if c == b'7'
    then "7"
    else if c == b'8'
    then "8"
    else "9"

unfoldable pub of_codes : List ℕ → String
unfolding char_of
of_codes [] = String.[]
of_codes (c ∷ cs) = String.◌∷◌ (char_of c) (of_codes cs)

abbrev pub IsDigit : ℕ → Type 0
IsDigit c = (b'0' ≤ c) × (c ≤ b'9')

-- The characters that a printed number has.
abbrev pub IsNumeric : ℕ → Type 0
IsNumeric c = IsDigit c ⊎ ((c ≡ b'-') ⊎ (c ≡ b'.'))

-- A test that so many numbers pass, from a first one on.
pass : (ℕ → Bool) → ℕ → ℕ → Bool
pass test first zero = true
pass test first (suc more) = test first && pass test (first + 1) more

pass-test :
    (test : ℕ → Bool) (first more c : ℕ)
    → first ≤ c
    → c < first + more
    → pass test first more ≡ true
    → test c ≡ true
unfolding pass
pass-test test first zero c low high all = absurd (omega arith)
pass-test test first (suc more) c low high all = elim (Bool-cases (first == c)) [
  | inl same ↦ let e : first ≡ c = ground arith in subst (λ n. test n ≡ true) e (ground arith)
  | inr apart ↦ pass-test test (first + 1) more c (ground arith) (omega arith) (ground arith)
]

-- The characters from the minus sign to 9, without the slash.
abbrev is_kept : ℕ → Bool
is_kept c = c == b'/' || code (char_of c) == c

all_kept : pass is_kept b'-' 13 ≡ true
unfolding pass char_of
all_kept = refl

code-char_of : (c : ℕ) → IsNumeric c → code (char_of c) ≡ c
code-char_of c h =
    let kept : is_kept c ≡ true =
      pass-test is_kept b'-' 13 c (ground arith) (ground arith) all_kept in
    ground arith

pub codes-of_codes : (cs : List ℕ) → All IsNumeric cs → codes (of_codes cs) ≡ cs
unfolding of_codes
codes-of_codes [] h = refl
codes-of_codes (c ∷ cs) (h, hs) = rw (code-char_of c h, codes-of_codes cs hs) refl

-- A text with no space in it is left as it is.
abbrev pub NoSpace : ℕ → Type 0
NoSpace c = is_space c ≡ false

trim_left-NoSpace : (s : String) → All NoSpace (codes s) → trim_left s ≡ s
unfolding trim_left
trim_left-NoSpace String.[] h = refl
trim_left-NoSpace (String.◌∷◌ c s) (h, hs) = rw h

trim_right-NoSpace : (s : String) → All NoSpace (codes s) → trim_right s ≡ s
unfolding trim_right
trim_right-NoSpace String.[] h = refl
trim_right-NoSpace (String.◌∷◌ c s) (h, hs) =
    rw h (ap (λ t. String.◌∷◌ c t) (trim_right-NoSpace s hs))

pub trim_space-NoSpace : (s : String) → All NoSpace (codes s) → trim_space s ≡ s
unfolding trim_space
trim_space-NoSpace s h = rw (trim_left-NoSpace s h) (trim_right-NoSpace s h)

pub numeric-NoSpace : (cs : List ℕ) → All IsNumeric cs → All NoSpace cs
unfolding is_space
numeric-NoSpace [] h = tt
numeric-NoSpace (c ∷ cs) (h, hs) = (ground arith, numeric-NoSpace cs hs)
