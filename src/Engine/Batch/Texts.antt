-- ===== src/Engine/Batch/Texts.antt =====
-- engine/batch.py: the values of a row, and how they are read.
use groupware_migrator.Base.{
  ℕ, String, Bool, true, false, ◌&&◌, ◌||◌, Option, none, some, List, [], ◌∷◌, if◌then◌else◌, ◌==◌,
  nat_eq, string_eq, Error, value_error, Result, ok, err, ◌>>=◌, ℤ, Json, str, Fields, end, field,
}
use groupware_migrator.Base.Text.{is_char, strip, replace_char, ◌<>◌}
use groupware_migrator.Base.Dict.{lookup, put}
use groupware_migrator.Base.Split.{split_on, contains, cut_at}
use groupware_migrator.Domain.FromDict.{Builtins}

-- a row of `csv.DictReader`: the values left over stand under the key `None`, a missing value is `None`
abbrev pub RawRow : Type 0
RawRow = List (Option String × Option String)

abbrev pub Row : Type 0
Row = List (String × String)

-- `"" if value is None else str(value).strip()`
abbrev value_text : Option String → String
value_text none = ""
value_text (some s) = strip s

abbrev add_value : (String → String) → Row → Option String × Option String → Row
add_value lower row (none, value) = row
add_value lower row (some key, value) = put (lower (strip key)) (value_text value) row

-- the loop of `_normalized_row`: a later key takes the place of an equal earlier one
unfoldable pub normalized_from : (String → String) → RawRow → Row → Row
unfolding put strip
normalized_from lower [] row = row
normalized_from lower (cell ∷ cells) row = normalized_from lower cells (add_value lower row cell)

unfoldable pub normalized_row : Builtins → RawRow → Row
unfolding normalized_from
normalized_row py cells = normalized_from py.lower cells []

abbrev present : Option String → String
present none = ""
present (some s) = strip s

-- the first of the keys with a value that is not blank
unfoldable pub row_value : Row → List String → String
unfolding lookup strip
row_value row [] = ""
row_value row (key ∷ keys) =
    let rest = row_value row keys in
    if present (lookup key row) == "" then rest else present (lookup key row)

unfoldable pub is_true_value : String → Bool
is_true_value s = s == "1" || s == "true" || s == "t" || s == "yes" || s == "y" || s == "on"

unfoldable pub is_false_value : String → Bool
is_false_value s = s == "0" || s == "false" || s == "f" || s == "no" || s == "n" || s == "off"

unfoldable pub parse_bool : Builtins → String → Bool → Result Bool
unfolding strip is_true_value is_false_value
parse_bool py raw_value fallback =
    let value = py.lower (strip raw_value) in
    if value == ""
    then ok fallback
    else if is_true_value value
    then ok true
    else if is_false_value value
    then ok false
    else err (value_error ("Invalid boolean value '" <> raw_value <> "'."))

unfoldable pub parse_int : Builtins → String → ℤ → Result ℤ
unfolding strip
parse_int py raw_value fallback =
    if strip raw_value == "" then ok fallback else py.int_of_text (strip raw_value)

-- `[item.strip() for item in ... if item.strip()]`
unfoldable pub stripped_items : List String → List String
unfolding strip
stripped_items [] = []
stripped_items (s ∷ ss) =
    let rest = stripped_items ss in if strip s == "" then rest else strip s ∷ rest

unfoldable pub parse_mailbox_list : String → List String
unfolding strip stripped_items split_on replace_char
parse_mailbox_list raw_value =
    if strip raw_value == ""
    then []
    else stripped_items (split_on b',' (replace_char b';' "," (replace_char b'|' "," raw_value)))

abbrev starts_with : ℕ → String → Bool
starts_with c String.[] = false
starts_with c (String.◌∷◌ ch s) = is_char c ch

abbrev without_first : String → String
without_first String.[] = ""
without_first (String.◌∷◌ ch s) = s

-- `"=>" in s`
unfoldable pub contains_arrow : String → Bool
unfolding is_char
contains_arrow String.[] = false
contains_arrow (String.◌∷◌ ch s) = is_char b'=' ch && starts_with b'>' s || contains_arrow s

-- `s.split("=>", 1)` where it occurs
unfoldable pub cut_arrow : String → String × String
unfolding is_char
cut_arrow String.[] = ("", "")
cut_arrow (String.◌∷◌ ch s) =
    let rest = cut_arrow s in
    if is_char b'=' ch && starts_with b'>' s
    then ("", without_first s)
    else (String.◌∷◌ ch rest.0, rest.1)

-- The two sides of a pair, stripped; none where there are not two of them.
unfoldable pub sides : String → Option (String × String)
unfolding strip contains_arrow cut_arrow contains cut_at
sides pair =
    if contains_arrow pair
    then some (strip (cut_arrow pair).0, strip (cut_arrow pair).1)
    else if contains b'=' pair
    then some (strip (cut_at b'=' pair).0, strip (cut_at b'=' pair).1)
    else none

-- `payload[key] = value`: a key keeps its place, and a new one comes last.
unfoldable pub set_field : String → Json → Fields → Fields
set_field key value end = field key value end
set_field key value (field k v fields) =
    let rest = set_field key value fields in
    if k == key then field k value fields else field k v rest

abbrev bad_pair : String → Error
bad_pair pair = value_error ("Invalid folder mapping pair '" <> pair <> "'.")

unfoldable pub add_pair : String → Option (String × String) → Fields → Result Fields
unfolding set_field
add_pair pair none mapping = err (bad_pair pair)
add_pair pair (some (source, target)) mapping =
    if source == "" || target == ""
    then err (bad_pair pair)
    else ok (set_field source (str target) mapping)

-- the loop over the chunks
unfoldable pub mapping_from : List String → Fields → Result Fields
unfolding strip sides add_pair
mapping_from [] mapping = ok mapping
mapping_from (chunk ∷ chunks) mapping =
    if strip chunk == ""
    then mapping_from chunks mapping
    else (add_pair (strip chunk) (sides (strip chunk)) mapping >>= λ m. mapping_from chunks m)

unfoldable pub parse_folder_mapping : String → Result Fields
unfolding strip mapping_from split_on replace_char
parse_folder_mapping raw_value =
    if strip raw_value == ""
    then ok end
    else mapping_from (split_on b';' (replace_char b'|' ";" raw_value)) end
