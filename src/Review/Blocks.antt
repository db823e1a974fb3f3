-- ===== src/Review/Blocks.antt =====
-- internal/hosted/review/blocks.go: changed files grouped by the words that they share.
pub mod Forest
pub mod Joined
pub mod Groups
pub mod Related
mod Tests
use px.Prelude.{
  ℕ, zero, suc, ◌+◌, ◌-◌, String, len, Bool, true, false, not, ◌&&◌, ◌||◌, List, [], ◌∷◌, ◌++◌,
  none, some, map, ltb, leb, ◌==◌, if◌then◌else◌, length, take, drop, keep_if, any_of, str_eq,
}
use px.Prelude.Int.{ℤ, pos, negsuc, ltb_ℤ, eqb_ℤ}
use px.Prelude.Text.{
  str_lt, trim_left, trim_right, trim_prefix, reverse_onto, map_chars, ascii_lower, join, show_ℕ,
}
use px.Prelude.Paths.{base, ext}
use px.Prelude.Sort.{sort_by}
use px.Prelude.Maps.{contains, add_key, lookup, insert, string_eq, nat_eq}
use px.Review.Words.{DiffLine, File, Signals, file_signals, shares}
use Prim.Native.Char.{Char, code}
use Prim.Native.String.{◌++◌ as concat, char_at}

pub record Block : Type 0 where
  pub id : String
  pub title : String
  pub summary : String
  pub paths : List String

-- `parent`, which has an entry for each index.
abbrev pub Parents : Type 0
Parents = ℕ → ℕ

abbrev pub set_parent : Parents → ℕ → ℕ → Parents
set_parent p i v k = if k == i then v else p k

-- `find`, with the depth of its calls as fuel; it answers the parents too, since it writes them.
unfoldable pub find : ℕ → Parents → ℕ → Parents × ℕ
find zero p i = (p, i)
find (suc fuel) p i =
    let above = find fuel p (p i) in
    let moved : Parents × ℕ = (set_parent above.0 i above.1, above.1) in
    if p i == i then (p, i) else moved

-- `parent[find(j)] = find(i)`
unfoldable pub link : ℕ → ℕ → ℕ → Parents → Parents
link fuel i j p =
    let of_j = find fuel p j in let of_i = find fuel of_j.0 i in set_parent of_i.0 of_j.1 of_i.1

module _ (fuel : ℕ) (share : ℕ → ℕ → Bool) where
  -- `for j`: the `m` indexes from `j` on.
  unfoldable pub join_row : ℕ → ℕ → ℕ → Parents → Parents
  join_row i zero j p = p
  join_row i (suc m) j p = join_row i m (j + 1) (if share i j then link fuel i j p else p)

  -- `for i`: the `m` indexes from `i` on.
  unfoldable pub join_rows : ℕ → ℕ → Parents → Parents
  join_rows zero i p = p
  join_rows (suc m) i p = join_rows m (i + 1) (join_row i m (i + 1) p)

-- `groups[r] = append(groups[r], i)`
unfoldable pub push_group : ℕ → ℕ → List (ℕ × List ℕ) → List (ℕ × List ℕ)
push_group r i [] = (r, i ∷ []) ∷ []
push_group r i ((k, is) ∷ gs) =
    let later = (k, is) ∷ push_group r i gs in if r == k then (k, is ++ i ∷ []) ∷ gs else later

-- The groups of the `m` indexes from `i` on.
unfoldable pub collect_groups : ℕ → ℕ → ℕ → Parents → List (ℕ × List ℕ) → List (ℕ × List ℕ)
collect_groups fuel zero i p groups = groups
collect_groups fuel (suc m) i p groups =
    let found = find fuel p i in collect_groups fuel m (i + 1) found.0 (push_group found.1 i groups)

-- One more than the pairs of `n` indexes: the depth of the forest is no more than its links.
unfoldable pub find_fuel : ℕ → ℕ
find_fuel zero = 1
find_fuel (suc n) = n + find_fuel n

-- The groups of two files at least, by their indexes.
unfoldable pub related_groups : (ℕ → ℕ → Bool) → ℕ → List (List ℕ)
related_groups share n =
    let fuel = find_fuel n in
    let groups = collect_groups fuel n 0 (join_rows fuel share n 0 (λ i. i)) [] in
    keep_if (λ is. not (ltb (length is) 2)) (map (λ g. g.1) groups)

abbrev pub count_of : String → List (String × ℕ) → ℕ
count_of v counts = elim (lookup v counts) [ none ↦ 0 | some n ↦ n ]

-- `counts[v]++` for each word.
unfoldable pub count_words_in : List String → List (String × ℕ) → List (String × ℕ)
unfolding lookup insert
count_words_in [] counts = counts
count_words_in (v ∷ vs) counts = count_words_in vs (insert v (count_of v counts + 1) counts)

-- `seen`: the words of the code, and then those of the paths.
unfoldable pub all_words : List String → List String → List String
unfolding add_key
all_words set [] = set
all_words set (v ∷ vs) = all_words (add_key v set) vs

-- A word of the paths counts twice, one of the code only once.
unfoldable pub count_signals : List Signals → List (String × ℕ) → List (String × ℕ)
unfolding count_words_in
count_signals [] counts = counts
count_signals (s ∷ ss) counts =
    let seen = all_words s.code s.path in
    count_signals ss (count_words_in seen (count_words_in s.path counts))

unfoldable pub best_word : String → ℤ → List (String × ℕ) → String
best_word best score [] = best
best_word best score ((v, n) ∷ counts) =
    let better = ltb_ℤ score (pos n) || (eqb_ℤ score (pos n) && str_lt v best) in
    best_word (if better then v else best) (if better then pos n else score) counts

unfoldable pub topic : List Signals → String
unfolding count_signals best_word
topic signals = best_word "related" (negsuc 0) (count_signals signals [])

-- The files at some indexes.
unfoldable pub at_indexes {ℓ} : {A : Type ℓ} → List A → List ℕ → List A
at_indexes xs [] = []
at_indexes xs (i ∷ is) = take 1 (drop i xs) ++ at_indexes xs is

-- The word with its first letter in upper case; a topic is in lower case and ASCII.
unfoldable pub capital : String → String
capital String.[] = String.[]
capital (String.◌∷◌ c s) =
    String.◌∷◌
      (if leb b'a' (code c) && leb (code c) b'z'
        then char_at "ABCDEFGHIJKLMNOPQRSTUVWXYZ" (code c - b'a')
        else c)
      s

-- The block of one group. `nul` is "\x00", and `short_sha256` the first eight bytes of a text's
-- SHA-256, in hexadecimal.
unfoldable pub block_of : String → (String → String) → List File → List Signals → List ℕ → Block
unfolding topic capital join at_indexes sort_by
block_of nul short_sha256 files signals indexes =
    let paths = sort_by str_lt (map (λ f. f.path) (at_indexes files indexes)) in
    let word = topic (at_indexes signals indexes) in
    record {
      id = concat "change-" (short_sha256 (join nul paths));
      title = concat (capital word) " changes";
      summary =
          concat (show_ℕ (length paths))
            (concat " related files share the \"" (concat word "\" change signal."));
      paths = paths;
    }

abbrev pub first_path : Block → String
first_path b = elim (b.paths) [ [] ↦ "" | p ∷ ps ↦ p ]

abbrev pub share_at : List Signals → ℕ → ℕ → Bool
share_at signals i j = elim (at_indexes signals (i ∷ j ∷ [])) [
  | [] ↦ false
  | a ∷ rest ↦ elim rest [ [] ↦ false | b ∷ more ↦ shares a b ]
]

-- `GroupBlocks`
unfoldable pub group_blocks : String → (String → String) → List File → List Block
unfolding file_signals related_groups block_of sort_by
group_blocks nul short_sha256 files =
    let signals = map file_signals files in
    let blocks =
      sort_by (λ a b. str_lt (first_path a) (first_path b))
        (map (block_of nul short_sha256 files signals)
          (related_groups (share_at signals) (length files))) in
    if ltb (length files) 2 then [] else blocks
