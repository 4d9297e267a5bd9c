-- ===== src/Base/Text/Words.antt =====
-- `strings.Fields`, `strings.ReplaceAll` of a slash by nothing, and suffixes, of Go's strings.
use Prim.Native.Char.{code}
use Prim.Native.String.{String}
use mathlib.Core.Option.{Option, none, some}
use mathlib.Core.List.{List, [], ◌∷◌}
use text.Mathlib.Text.{◌==◌ as str_eq}
use joinanny.Base.Tests.{◌==◌, if◌then◌else◌}
use joinanny.Base.Text.{is_space}

-- The first word and the further ones; a word may be empty.
unfoldable pub split_space : String → String × List String
unfolding is_space
split_space String.[] = ("", [])
split_space (String.◌∷◌ c s) =
    let rest = split_space s in
    if is_space (code c) then ("", rest.0 ∷ rest.1) else (String.◌∷◌ c rest.0, rest.1)

unfoldable pub not_empty : List String → List String
not_empty [] = []
not_empty (w ∷ ws) = let rest = not_empty ws in if str_eq w "" then rest else w ∷ rest

unfoldable pub fields : String → List String
unfolding split_space not_empty
fields s = let words = split_space s in not_empty (words.0 ∷ words.1)

unfoldable pub without_slash : String → String
without_slash String.[] = String.[]
without_slash (String.◌∷◌ c s) =
    let rest = without_slash s in if code c == b'/' then rest else String.◌∷◌ c rest

-- The text before a suffix, if it ends in it.
unfoldable pub before_suffix : String → String → Option String
before_suffix suffix String.[] = if str_eq "" suffix then some "" else none
before_suffix suffix (String.◌∷◌ c s) =
    let rest = before_suffix suffix s in
    if str_eq (String.◌∷◌ c s) suffix
    then some ""
    else elim rest [ none ↦ none | some front ↦ some (String.◌∷◌ c front) ]
