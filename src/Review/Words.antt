-- ===== src/Review/Words.antt =====
-- internal/hosted/review/blocks.go: the words that a changed file shows in its path and its code.
use px.Prelude.{
  ℕ, String, len, Bool, not, ◌&&◌, ◌||◌, List, [], ◌∷◌, ◌++◌, leb, ◌==◌, if◌then◌else◌, length,
  keep_if, any_of, str_eq,
}
use px.Prelude.Text.{trim_left, trim_right, trim_prefix, reverse_onto, map_chars, ascii_lower}
use px.Prelude.Paths.{base, ext}
use px.Prelude.Maps.{contains, add_key, string_eq, nat_eq}
use Prim.Native.Char.{code}

pub record DiffLine : Type 0 where
  pub kind : String
  pub text : String

-- A file and the lines of its hunks.
pub record File : Type 0 where
  pub path : String
  pub hunks : List (List DiffLine)

pub record Signals : Type 0 where
  pub path : List String
  pub code : List String

abbrev pub stop_words : List String
stop_words =
    "async" ∷ "await" ∷ "break" ∷ "case" ∷ "class" ∷ "const" ∷ "continue" ∷ "default" ∷ "else"
    ∷ "error" ∷ "export" ∷ "false" ∷ "from" ∷ "function" ∷ "import" ∷ "interface" ∷ "package"
    ∷ "return" ∷ "string" ∷ "struct" ∷ "switch" ∷ "throw" ∷ "true" ∷ "undefined" ∷ []

abbrev pub is_letter : ℕ → Bool
is_letter n = (leb b'A' n && leb n b'Z') || (leb b'a' n && leb n b'z')

abbrev pub is_word_char : ℕ → Bool
is_word_char n = is_letter n || (leb b'0' n && leb n b'9') || n == b'_'

abbrev long_word : String → List String
long_word word = if leb 4 (len word) then reverse_onto "" word ∷ [] else []

-- The matches of `[A-Za-z][A-Za-z0-9_]{3,}`: in each run of such characters, from its first letter on.
unfoldable pub find_tokens : String → String → List String
unfolding reverse_onto
find_tokens word String.[] = long_word word
find_tokens word (String.◌∷◌ c s) =
    let inside =
      find_tokens (if str_eq word "" && not (is_letter (code c)) then "" else String.◌∷◌ c word)
        s in
    let after = long_word word ++ find_tokens "" s in
    if is_word_char (code c) then inside else after

-- `add`
unfoldable pub add_word : List String → String → List String
unfolding trim_left trim_right map_chars ascii_lower contains add_key
add_word set value =
    let word =
      map_chars ascii_lower (trim_right (λ n. n == b'_') (trim_left (λ n. n == b'_') value)) in
    if leb 4 (len word) && not (contains word stop_words) then add_key word set else set

unfoldable pub add_words : List String → List String → List String
unfolding add_word
add_words set [] = set
add_words set (v ∷ vs) = add_words (add_word set v) vs

unfoldable pub trim_suffix : String → String → String
unfolding reverse_onto trim_prefix
trim_suffix s t = reverse_onto "" (trim_prefix (reverse_onto "" s) (reverse_onto "" t))

unfoldable pub line_words : List String → List DiffLine → List String
unfolding add_words find_tokens
line_words set [] = set
line_words set (l ∷ ls) =
    line_words (if str_eq l.kind "context" then set else add_words set (find_tokens "" l.text)) ls

unfoldable pub hunk_words : List String → List (List DiffLine) → List String
unfolding line_words
hunk_words set [] = set
hunk_words set (h ∷ hs) = hunk_words (line_words set h) hs

unfoldable pub file_signals : File → Signals
unfolding add_words find_tokens hunk_words trim_suffix base ext
file_signals file = record {
  path = add_words [] (find_tokens "" (trim_suffix (base file.path) (ext file.path)));
  code = hunk_words [] file.hunks;
}

-- `shared`: one word of the paths, or two of the code.
unfoldable pub shares : Signals → Signals → Bool
unfolding any_of keep_if contains
shares a b =
    any_of (λ v. contains v b.path) a.path
    || leb 2 (length (keep_if (λ v. contains v b.code) a.code))
