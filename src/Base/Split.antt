-- ===== src/Base/Split.antt =====
-- Texts in pieces: `in`, `split` and `split` with a limit of 1.
use Prim.Native.Char.{Char}
use groupware_migrator.Base.{
  ℕ, String, Bool, false, not, ◌||◌, List, [], ◌∷◌, if◌then◌else◌, ◌==◌, nat_eq, string_eq,
  select_where,
}
use groupware_migrator.Base.Text.{is_char, is_space}

abbrev glue : Char → List String → List String
glue c [] = String.◌∷◌ c "" ∷ []
glue c (s ∷ ss) = String.◌∷◌ c s ∷ ss

-- `s.split(sep)` for a separator of one character
unfoldable pub split_on : ℕ → String → List String
unfolding is_char
split_on sep String.[] = "" ∷ []
split_on sep (String.◌∷◌ c s) =
    let rest = split_on sep s in if is_char sep c then "" ∷ rest else glue c rest

unfoldable pub contains : ℕ → String → Bool
unfolding is_char
contains sep String.[] = false
contains sep (String.◌∷◌ c s) = is_char sep c || contains sep s

-- `s.split(sep, 1)` where the separator occurs
unfoldable pub cut_at : ℕ → String → String × String
unfolding is_char
cut_at sep String.[] = ("", "")
cut_at sep (String.◌∷◌ c s) =
    let rest = cut_at sep s in if is_char sep c then ("", s) else (String.◌∷◌ c rest.0, rest.1)

-- `s.split(sep)[0]`
unfoldable pub first_piece : ℕ → String → String
unfolding cut_at contains
first_piece sep s = if contains sep s then (cut_at sep s).0 else s

abbrev not_empty : String → Bool
not_empty s = not (s == "")

-- `s.split()`: the pieces between white space
unfoldable pub spaced : String → List String
unfolding is_space
spaced String.[] = "" ∷ []
spaced (String.◌∷◌ c s) = let rest = spaced s in if is_space c then "" ∷ rest else glue c rest

unfoldable pub words : String → List String
unfolding spaced
words s = select_where not_empty (spaced s)
