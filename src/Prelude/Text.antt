-- ===== src/Prelude/Text.antt =====
-- What the program uses of Go's `strings`, `strconv` and `fmt`, over native texts (a Go string that
-- holds valid UTF-8). `len` counts bytes; the order is that of the code points, which is Go's order of bytes.
use Prim.Native.Nat.{ℕ, zero, suc, ◌-◌, ◌/◌, ◌%◌}
use Prim.Native.Char.{Char, code}
use Prim.Native.String.{String, ◌++◌, compare, char_at}
use mathlib.Core.Bool.{Bool, true, false, ◌&&◌, ◌||◌}
use mathlib.Core.List.{List, [], ◌∷◌}
use text.Mathlib.Text.{◌==◌ as str_eq, is_lt}
use px.Prelude.Tests.{ltb, leb, ◌==◌, if◌then◌else◌}
use px.Prelude.Int.{ℤ, pos, negsuc}

-- `s < t` on strings.
abbrev pub str_lt : String → String → Bool
str_lt s t = is_lt (compare s t)

-- Text that holds one character.
abbrev pub of_char : Char → String
of_char c = String.◌∷◌ c String.[]

-- unicode.IsSpace, on a code point.
unfoldable pub is_space : ℕ → Bool
is_space n =
    (leb 9 n && leb n 13)
    || n == 32
    || n == 0x85
    || n == 0xa0
    || n == 0x1680
    || (leb 0x2000 n && leb n 0x200a)
    || n == 0x2028
    || n == 0x2029
    || n == 0x202f
    || n == 0x205f
    || n == 0x3000

unfoldable pub trim_left : (ℕ → Bool) → String → String
trim_left p String.[] = String.[]
trim_left p (String.◌∷◌ c s) =
    let rest = trim_left p s in if p (code c) then rest else String.◌∷◌ c s

unfoldable pub trim_right : (ℕ → Bool) → String → String
trim_right p String.[] = String.[]
trim_right p (String.◌∷◌ c s) =
    let rest = trim_right p s in
    if p (code c) && str_eq rest "" then String.[] else String.◌∷◌ c rest

-- strings.TrimSpace
unfoldable pub trim_space : String → String
unfolding trim_left trim_right is_space
trim_space s = trim_right is_space (trim_left is_space s)

-- `strings.TrimSpace(s) == ""`
abbrev pub is_blank : String → Bool
is_blank s = str_eq (trim_space s) ""

-- strings.HasPrefix
unfoldable pub has_prefix : String → String → Bool
has_prefix s String.[] = true
has_prefix String.[] (String.◌∷◌ d t) = false
has_prefix (String.◌∷◌ c s) (String.◌∷◌ d t) = code c == code d && has_prefix s t

-- strings.TrimPrefix
unfoldable pub trim_prefix : String → String → String
trim_prefix s String.[] = s
trim_prefix String.[] (String.◌∷◌ d t) = String.[]
trim_prefix (String.◌∷◌ c s) (String.◌∷◌ d t) =
    if code c == code d && has_prefix s t then trim_prefix s t else String.◌∷◌ c s

unfoldable pub reverse_onto : String → String → String
reverse_onto acc String.[] = acc
reverse_onto acc (String.◌∷◌ c s) = reverse_onto (String.◌∷◌ c acc) s

-- strings.HasSuffix
unfoldable pub has_suffix : String → String → Bool
unfolding has_prefix reverse_onto
has_suffix s t = has_prefix (reverse_onto "" s) (reverse_onto "" t)

-- strings.Contains, for one character.
unfoldable pub has_char : ℕ → String → Bool
has_char n String.[] = false
has_char n (String.◌∷◌ c s) = code c == n || has_char n s

abbrev cons_first : Char → List String → List String
cons_first c [] = of_char c ∷ []
cons_first c (w ∷ ws) = String.◌∷◌ c w ∷ ws

-- strings.Split, at a separator of one character.
unfoldable pub split_on : ℕ → String → List String
split_on sep String.[] = "" ∷ []
split_on sep (String.◌∷◌ c s) =
    let rest = split_on sep s in if code c == sep then "" ∷ rest else cons_first c rest

-- strings.Join
unfoldable pub join : String → List String → String
join sep [] = ""
join sep (w ∷ []) = w
join sep (w ∷ v ∷ ws) = w ++ (sep ++ join sep (v ∷ ws))

-- strings.ToLower, on a character of ASCII; any other is left as it is.
unfoldable pub ascii_lower : Char → Char
ascii_lower c =
    if leb 65 (code c) && leb (code c) 90
    then char_at "abcdefghijklmnopqrstuvwxyz" (code c - 65)
    else c

unfoldable pub map_chars : (Char → Char) → String → String
map_chars f String.[] = String.[]
map_chars f (String.◌∷◌ c s) = String.◌∷◌ (f c) (map_chars f s)

-- Every character of the text passes.
unfoldable pub all_chars : (ℕ → Bool) → String → Bool
all_chars p String.[] = true
all_chars p (String.◌∷◌ c s) = p (code c) && all_chars p s

-- strings.FieldsFunc: the maximal runs of characters that do not separate.
unfoldable pub fields_from : (Char → Bool) → String → String → List String
fields_from sep word String.[] = if str_eq word "" then [] else reverse_onto "" word ∷ []
fields_from sep word (String.◌∷◌ c s) =
    let here = fields_from sep (String.◌∷◌ c word) s in
    let next = fields_from sep "" s in
    if sep c then (if str_eq word "" then next else reverse_onto "" word ∷ next) else here

unfoldable pub fields_func : (Char → Bool) → String → List String
unfolding fields_from reverse_onto
fields_func sep s = fields_from sep "" s

-- `%d`: twenty digits hold every 64-bit integer.
unfoldable pub digits_onto : ℕ → ℕ → String → String
digits_onto zero n acc = acc
digits_onto (suc fuel) n acc =
    let d = String.◌∷◌ (char_at "0123456789" (n % 10)) acc in
    let rest = digits_onto fuel (n / 10) d in if ltb n 10 then d else rest

unfoldable pub show_ℕ : ℕ → String
unfolding digits_onto
show_ℕ n = digits_onto 20 n ""

unfoldable pub show_ℤ : ℤ → String
unfolding show_ℕ
show_ℤ (pos n) = show_ℕ n
show_ℤ (negsuc n) = "-" ++ show_ℕ (suc n)
