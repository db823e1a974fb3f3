-- ===== src/Prelude/Paths.antt =====
-- What the program uses of Go's `path` and `path/filepath` (on a system whose separator is `/`, where
-- `ToSlash` changes nothing).
use mathlib.Core.Path.{◌≡◌, refl}
use mathlib.Core.Bool.{Bool, ◌||◌}
use mathlib.Core.List.{List, [], ◌∷◌, reverse, foldl}
use Prim.Native.String.{String, ◌++◌}
use text.Mathlib.Text.{◌==◌ as str_eq}
use px.Prelude.Tests.{if◌then◌else◌}
use px.Prelude.Text.{has_prefix, has_char, split_on, join, trim_right}
use px.Prelude.Tests.{◌==◌}

-- One element between slashes, put on the elements so far (the last first).
unfoldable pub push_segment : Bool → List String → String → List String
push_segment rooted [] seg =
    if str_eq seg "" || str_eq seg "."
    then []
    else if str_eq seg ".."
    then (if rooted then [] else seg ∷ [])
    else seg ∷ []
push_segment rooted (top ∷ rest) seg =
    if str_eq seg "" || str_eq seg "."
    then top ∷ rest
    else if str_eq seg ".."
    then (if str_eq top ".." then seg ∷ top ∷ rest else rest)
    else seg ∷ top ∷ rest

-- filepath.IsAbs
abbrev pub is_abs : String → Bool
is_abs p = has_prefix p "/"

-- path.Clean
unfoldable pub clean : String → String
unfolding push_segment has_prefix split_on join
clean p =
    let rooted = is_abs p in
    let out = join "/" (reverse (foldl (push_segment rooted) [] (split_on b'/' p))) in
    if str_eq p "" then "." else if rooted then "/" ++ out else if str_eq out "" then "." else out

-- The guard `clean == ".." || strings.HasPrefix(clean, "../")` for a path that leaves the repository.
abbrev pub escapes : String → Bool
escapes p = str_eq p ".." || has_prefix p "../"

unfoldable pub last_or : String → List String → String
last_or d [] = d
last_or d (x ∷ xs) = last_or x xs

unfoldable pub drop_last : List String → List String
drop_last [] = []
drop_last (x ∷ []) = []
drop_last (x ∷ y ∷ ys) = x ∷ drop_last (y ∷ ys)

-- path.Base
unfoldable pub base : String → String
unfolding last_or split_on trim_right
base p =
    let stripped = trim_right (λ n. n == b'/') p in
    if str_eq p ""
    then "."
    else if str_eq stripped ""
    then "/"
    else last_or "" (split_on b'/' stripped)

-- path.Ext
unfoldable pub ext : String → String
unfolding last_or split_on has_char
ext p =
    let file = last_or "" (split_on b'/' p) in
    if has_char b'.' file then "." ++ last_or "" (split_on b'.' file) else ""

-- path.Dir
unfoldable pub dir : String → String
unfolding clean drop_last split_on has_char join
dir p = if has_char b'/' p then clean (join "/" (drop_last (split_on b'/' p)) ++ "/") else clean ""

clean_dots : clean "a/./b/../c//d" ≡ "a/c/d"
unfolding clean
clean_dots = refl

clean_escape : clean "a/../../x" ≡ "../x"
unfolding clean
clean_escape = refl

clean_rooted : clean "/../x/" ≡ "/x"
unfolding clean
clean_rooted = refl

ext_last : ext "src/app.test.ts" ≡ ".ts"
unfolding ext
ext_last = refl

dir_of : dir "src/lib/a.go" ≡ "src/lib"
unfolding dir
dir_of = refl

base_of : base "src/lib/" ≡ "lib"
unfolding base
base_of = refl
