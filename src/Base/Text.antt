-- ===== src/Base/Text.antt =====
-- The functions of Go's `strings` package that the program calls, on texts as lists of characters.
pub mod Codes
pub mod Case
pub mod Words
use Prim.Native.Char.{code}
use Prim.Native.String.{String}
use Prim.Native.Nat.{ℕ, ◌+◌}
use mathlib.Core.Bool.{Bool, true, false, ◌&&◌, ◌||◌}
use joinanny.Base.Tests.{leb, ◌==◌, if◌then◌else◌}

-- `unicode.IsSpace`.
pub is_space : ℕ → Bool
is_space c =
    (leb 9 c && leb c 13)
    || c == 32
    || c == 0x85
    || c == 0xa0
    || c == 0x1680
    || (leb 0x2000 c && leb c 0x200a)
    || c == 0x2028
    || c == 0x2029
    || c == 0x202f
    || c == 0x205f
    || c == 0x3000

trim_left : String → String
unfolding is_space
trim_left String.[] = String.[]
trim_left (String.◌∷◌ c s) =
    let rest = trim_left s in if is_space (code c) then rest else String.◌∷◌ c s

is_blank : String → Bool
is_blank String.[] = true
is_blank (String.◌∷◌ c s) = is_space (code c) && is_blank s

trim_right : String → String
unfolding is_space is_blank
trim_right String.[] = String.[]
trim_right (String.◌∷◌ c s) =
    if is_space (code c) && is_blank s then String.[] else String.◌∷◌ c (trim_right s)

-- `strings.TrimSpace`.
unfoldable pub trim_space : String → String
unfolding trim_left trim_right
trim_space s = trim_right (trim_left s)

-- An ASCII letter in lower case, with the two other characters that fold to one (the Kelvin sign and
-- the long s); all others stay.
pub fold_ascii : ℕ → ℕ
fold_ascii c =
    if leb b'A' c && leb c b'Z'
    then c + 32
    else if c == 0x212a
    then 107
    else if c == 0x17f
    then 115
    else c

pub equal_fold_ascii : String → String → Bool
equal_fold_ascii String.[] String.[] = true
equal_fold_ascii String.[] (String.◌∷◌ d t) = false
equal_fold_ascii (String.◌∷◌ c s) String.[] = false
equal_fold_ascii (String.◌∷◌ c s) (String.◌∷◌ d t) =
    fold_ascii (code c) == fold_ascii (code d) && equal_fold_ascii s t

-- `strings.EqualFold` of two texts of which one is ASCII.
unfoldable pub equal_fold : String → String → Bool
unfolding equal_fold_ascii fold_ascii
equal_fold s t = equal_fold_ascii s t
