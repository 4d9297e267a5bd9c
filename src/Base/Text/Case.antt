-- ===== src/Base/Text/Case.antt =====
-- `strings.ToUpper` and `strings.ToLower` of Go, on texts whose letters are ASCII; other characters
-- stay as they are.
use Prim.Native.Char.{Char, code}
use Prim.Native.Nat.{ℕ}
use Prim.Native.String.{String}
use joinanny.Base.Tests.{◌==◌, if◌then◌else◌}

pub upper_letter : ℕ → Char → Char
upper_letter c other =
    if c == b'a'
    then "A"
    else if c == b'b'
    then "B"
    else if c == b'c'
    then "C"
    else if c == b'd'
    then "D"
    else if c == b'e'
    then "E"
    else if c == b'f'
    then "F"
    else if c == b'g'
    then "G"
    else if c == b'h'
    then "H"
    else if c == b'i'
    then "I"
    else if c == b'j'
    then "J"
    else if c == b'k'
    then "K"
    else if c == b'l'
    then "L"
    else if c == b'm'
    then "M"
    else if c == b'n'
    then "N"
    else if c == b'o'
    then "O"
    else if c == b'p'
    then "P"
    else if c == b'q'
    then "Q"
    else if c == b'r'
    then "R"
    else if c == b's'
    then "S"
    else if c == b't'
    then "T"
    else if c == b'u'
    then "U"
    else if c == b'v'
    then "V"
    else if c == b'w'
    then "W"
    else if c == b'x'
    then "X"
    else if c == b'y'
    then "Y"
    else if c == b'z'
    then "Z"
    else other

pub lower_letter : ℕ → Char → Char
lower_letter c other =
    if c == b'A'
    then "a"
    else if c == b'B'
    then "b"
    else if c == b'C'
    then "c"
    else if c == b'D'
    then "d"
    else if c == b'E'
    then "e"
    else if c == b'F'
    then "f"
    else if c == b'G'
    then "g"
    else if c == b'H'
    then "h"
    else if c == b'I'
    then "i"
    else if c == b'J'
    then "j"
    else if c == b'K'
    then "k"
    else if c == b'L'
    then "l"
    else if c == b'M'
    then "m"
    else if c == b'N'
    then "n"
    else if c == b'O'
    then "o"
    else if c == b'P'
    then "p"
    else if c == b'Q'
    then "q"
    else if c == b'R'
    then "r"
    else if c == b'S'
    then "s"
    else if c == b'T'
    then "t"
    else if c == b'U'
    then "u"
    else if c == b'V'
    then "v"
    else if c == b'W'
    then "w"
    else if c == b'X'
    then "x"
    else if c == b'Y'
    then "y"
    else if c == b'Z'
    then "z"
    else other

unfoldable pub to_upper : String → String
unfolding upper_letter
to_upper String.[] = String.[]
to_upper (String.◌∷◌ c s) = String.◌∷◌ (upper_letter (code c) c) (to_upper s)

unfoldable pub to_lower : String → String
unfolding lower_letter
to_lower String.[] = String.[]
to_lower (String.◌∷◌ c s) = String.◌∷◌ (lower_letter (code c) c) (to_lower s)
