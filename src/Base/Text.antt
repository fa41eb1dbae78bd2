-- ===== src/Base/Text.antt =====
-- Python's `str` methods that the engine uses, on the native strings.
use Prim.Native.Char.{Char, code}
use Prim.Native.String.{◌++◌ as str_append}
use groupware_migrator.Base.{
  ℕ, zero, suc, ◌/◌, ◌%◌, String, nat_eq, string_eq, Bool, true, false, ◌&&◌, ◌||◌, ◌≡◌, refl, leb,
  ◌==◌, if◌then◌else◌,
}

-- `a + b`, and f-strings
infixr 60 ◌<>◌
abbrev pub ◌<>◌ : String → String → String
a <> b = str_append a b

-- `str.isspace` of one character
unfoldable pub is_space : Char → Bool
is_space ch =
    let c = code ch in
    (leb 9 c && leb c 13)
    || (leb 28 c && leb c 32)
    || c == 0x85
    || c == 0xa0
    || c == 0x1680
    || (leb 0x2000 c && leb c 0x200a)
    || c == 0x2028
    || c == 0x2029
    || c == 0x202f
    || c == 0x205f
    || c == 0x3000

unfoldable pub is_char : ℕ → Char → Bool
is_char k ch = code ch == k

abbrev pub is_empty : String → Bool
is_empty String.[] = true
is_empty (String.◌∷◌ c s) = false

-- lstrip and rstrip of the characters that `p` tests
unfoldable pub lstrip : (Char → Bool) → String → String
lstrip p String.[] = ""
lstrip p (String.◌∷◌ c s) = let rest = lstrip p s in if p c then rest else String.◌∷◌ c s

unfoldable pub rstrip : (Char → Bool) → String → String
rstrip p String.[] = ""
rstrip p (String.◌∷◌ c s) =
    let rest = rstrip p s in if p c && is_empty rest then "" else String.◌∷◌ c rest

unfoldable pub strip_chars : (Char → Bool) → String → String
unfolding lstrip rstrip
strip_chars p s = rstrip p (lstrip p s)

unfoldable pub strip : String → String
unfolding strip_chars is_space
strip s = strip_chars is_space s

-- `s.replace(a, b)` for one character each
unfoldable pub replace_char : ℕ → Char → String → String
unfolding is_char
replace_char a b String.[] = ""
replace_char a b (String.◌∷◌ c s) =
    let rest = replace_char a b s in if is_char a c then String.◌∷◌ b rest else String.◌∷◌ c rest

abbrev digit_text : ℕ → String
digit_text zero = "0"
digit_text (suc zero) = "1"
digit_text (suc (suc zero)) = "2"
digit_text (suc (suc (suc zero))) = "3"
digit_text (suc (suc (suc (suc zero)))) = "4"
digit_text (suc (suc (suc (suc (suc zero))))) = "5"
digit_text (suc (suc (suc (suc (suc (suc zero)))))) = "6"
digit_text (suc (suc (suc (suc (suc (suc (suc zero))))))) = "7"
digit_text (suc (suc (suc (suc (suc (suc (suc (suc zero)))))))) = "8"
digit_text _ = "9"

-- The fuel `suc n` is enough for `n`, which has fewer than `suc n` digits.
decimal_digits : ℕ → ℕ → String → String
decimal_digits zero n rest = rest
decimal_digits (suc fuel) n rest =
    let last = digit_text (n % 10) <> rest in
    let more = decimal_digits fuel (n / 10) last in if n / 10 == 0 then last else more

-- `str(n)`
unfoldable pub decimal : ℕ → String
unfolding decimal_digits
decimal n = decimal_digits (suc n) n ""

strip_example : strip "  a b " ≡ "a b"
unfolding strip
strip_example = refl

decimal_example : decimal 1205 ≡ "1205"
unfolding decimal
decimal_example = refl
