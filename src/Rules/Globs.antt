-- ===== src/Rules/Globs.antt =====
-- artifact_rules.go: globRegexp, and the bytes and patterns that it works on.
use px.Prelude.{
  ◌≡◌, refl, ℕ, zero, suc, ◌+◌, ◌/◌, ◌%◌, String, Bool, true, false, ◌&&◌, Option, none, some, List,
  [], ◌∷◌, ◌++◌, ltb, ◌==◌, if◌then◌else◌, length, drop, str_eq, any_of,
}
use px.Prelude.Text.{trim_space, has_char}
use Prim.Native.Char.{code}
use Prim.Native.String.{◌++◌ as concat}

-- The code points of a text.
abbrev pub codes : String → List ℕ
codes String.[] = []
codes (String.◌∷◌ c s) = code c ∷ codes s

-- A code point in UTF-8.
unfoldable pub utf8_of : ℕ → List ℕ
utf8_of n =
    if ltb n 0x80
    then n ∷ []
    else if ltb n 0x800
    then (0xC0 + n / 64) ∷ (0x80 + n % 64) ∷ []
    else if ltb n 0x10000
    then (0xE0 + n / 4096) ∷ (0x80 + n / 64 % 64) ∷ (0x80 + n % 64) ∷ []
    else (0xF0 + n / 262144) ∷ (0x80 + n / 4096 % 64) ∷ (0x80 + n / 64 % 64) ∷ (0x80 + n % 64) ∷ []

unfoldable pub bytes_of : String → List ℕ
unfolding utf8_of
bytes_of String.[] = []
bytes_of (String.◌∷◌ c s) = utf8_of (code c) ++ bytes_of s

-- What `regexp.QuoteMeta` puts a backslash before.
abbrev pub is_special : ℕ → Bool
is_special n = any_of (λ k. k == n) (codes "\\.+*?()|[]{}^$")

unfoldable pub quote_meta : String → String
unfolding any_of
quote_meta String.[] = String.[]
quote_meta (String.◌∷◌ c s) =
    let rest = String.◌∷◌ c (quote_meta s) in if is_special (code c) then concat "\\" rest else rest

unfoldable pub starts_with : List ℕ → List ℕ → Bool
starts_with text [] = true
starts_with [] (p ∷ ps) = false
starts_with (b ∷ bs) (p ∷ ps) = b == p && starts_with bs ps

-- One round of the loop: what it writes, as code points. `string(c)` reads a byte as a code point.
unfoldable pub glob_piece : List ℕ → ℕ → List ℕ
unfolding starts_with any_of
glob_piece text c =
    if starts_with text (codes "**/")
    then codes "(?:.*/)?"
    else if starts_with text (codes "**")
    then codes ".*"
    else if c == b'*'
    then codes "[^/]*"
    else if c == b'?'
    then codes "[^/]"
    else if is_special c
    then 92 ∷ c ∷ []
    else c ∷ []

-- The bytes that a round goes past, after the first.
unfoldable pub glob_skip : List ℕ → ℕ
unfolding starts_with
glob_skip text =
    if starts_with text (codes "**/") then 2 else if starts_with text (codes "**") then 1 else 0

-- The loop over the bytes; each round takes one at least, so that the length is fuel enough.
unfoldable pub glob_pieces : ℕ → List ℕ → List ℕ
unfolding glob_piece glob_skip
glob_pieces zero text = []
glob_pieces (suc fuel) [] = []
glob_pieces (suc fuel) (c ∷ cs) =
    glob_piece (c ∷ cs) c ++ glob_pieces fuel (drop (glob_skip (c ∷ cs)) cs)

abbrev pub anchored : String → String
anchored glob = if has_char b'/' glob then glob else concat "**/" glob

-- The pattern that `globRegexp` compiles; none for an empty glob.
unfoldable pub glob_pattern : String → Option (List ℕ)
unfolding glob_pieces bytes_of trim_space has_char
glob_pattern glob =
    let trimmed = trim_space glob in
    let bytes = bytes_of (anchored trimmed) in
    if str_eq trimmed ""
    then none
    else some (codes "^" ++ (glob_pieces (length bytes) bytes ++ codes "$"))

glob-go : glob_pattern " src/**/*.go" ≡ some (codes "^src/(?:.*/)?[^/]*\\.go$")
unfolding glob_pattern
glob-go = refl

glob-name : glob_pattern "a?.txt" ≡ some (codes "^(?:.*/)?a[^/]\\.txt$")
unfolding glob_pattern
glob-name = refl

-- A character outside ASCII becomes one code point for each of its bytes.
glob-accent : glob_pattern "é" ≡ some (codes "^(?:.*/)?Ã©$")
unfolding glob_pattern
glob-accent = refl
