-- ===== src/Review/Rank.antt =====
-- internal/hosted/review/rank.go: the deduplicated, capped, severity-first list of findings.
pub mod Order
pub mod Keep
pub mod Delivery
mod Tests
use Prim.Native.Char.{Char, code}
use mathlib.Core.List.{reverse}
use px.Prelude.{
  ℕ, suc, ◌*◌, ◌+◌, String, Bool, true, false, not, ◌&&◌, ◌||◌, List, [], ◌∷◌, ◌++◌, ltb, leb, ◌==◌,
  str_eq, if◌then◌else◌, length, any_of,
}
use px.Prelude.Int.{ℤ, pos, pos_part, ltb_ℤ, leb_ℤ}
use px.Prelude.Text.{str_lt, map_chars, fields_func}
use px.Prelude.Paths.{clean}
use px.Prelude.Float.{ltb_f}
use px.Prelude.Sort.{sort_by}
use px.Prelude.Maps.{Key, same, nat_eq, int_eq, string_eq, contains, add_key}
use px.Review.Finding.{Finding}

-- Go's Unicode tables, as far as the program asks them.
pub record Unicode : Type 0 where
  pub to_lower : Char → Char
  pub is_letter : Char → Bool
  pub is_number : Char → Bool

abbrev pub default_max_inline_comments : ℕ
default_max_inline_comments = 15

-- The map `rank` of `stronger`; a missing key reads 0.
unfoldable pub severity_rank : String → ℕ
severity_rank s = if str_eq s "P1" then 1 else if str_eq s "P2" then 2 else 0

-- `if ka != kb { return ka < kb }`, and what follows it.
abbrev pub order_by {ℓ κ} :
    {A : Type ℓ} {K : Type κ} ⦃e : Key K⦄ → (K → K → Bool) → (A → K) → (A → A → Bool) → A → A → Bool
order_by lt key next a b = if not (same (key a) (key b)) then lt (key a) (key b) else next a b

-- `a > b` on confidences.
abbrev pub more_f : ℤ → ℤ → Bool
more_f a b = ltb_f b a

abbrev pub by_title : Finding → Finding → Bool
by_title a b = str_lt a.title b.title

unfoldable pub stronger : Finding → Finding → Bool
stronger =
    order_by ltb (λ f. severity_rank f.severity)
      (order_by more_f (λ f. f.confidence)
        (order_by str_lt (λ f. clean f.path)
          (order_by ltb_ℤ (λ f. f.start_line) (order_by ltb_ℤ (λ f. f.end_line) by_title))))

-- The map that `titleSimilarity` fills to count the union.
unfoldable pub add_all : List String → List String → List String
add_all [] set = set
add_all (w ∷ ws) set = add_all ws (add_key w set)

-- How many keys of the first set are in the second.
unfoldable pub shared_words : List String → List String → ℕ
shared_words [] right = 0
shared_words (w ∷ ws) right = (if contains w right then 1 else 0) + shared_words ws right

-- The number that `maxInlineComments` stands for.
abbrev pub cap_of : ℤ → ℕ
cap_of max_inline_comments =
    if leb_ℤ max_inline_comments (pos 0)
    then default_max_inline_comments
    else pos_part max_inline_comments

module _ (u : Unicode) where
  unfoldable pub title_words : String → List String
  unfolding add_all
  title_words value =
      add_all
        (fields_func (λ c. not (u.is_letter c) && not (u.is_number c)) (map_chars u.to_lower value))
        []

  -- `titleSimilarity(a, b) >= 0.6`: of numbers this small the rounded quotient reaches the float64
  -- next to 3/5 exactly where the fraction reaches 3/5.
  unfoldable pub similar_titles : String → String → Bool
  unfolding title_words shared_words add_all
  similar_titles a b =
      let left = title_words a in
      let right = title_words b in
      let union = length (add_all right (add_all left [])) in
      if length left == 0 || length right == 0
      then false
      else leb (3 * union) (5 * shared_words left right)

  unfoldable pub same_finding : Finding → Finding → Bool
  same_finding a b =
      if not (str_eq (clean a.path) (clean b.path))
      then false
      else if ltb_ℤ a.end_line b.start_line || ltb_ℤ b.end_line a.start_line
      then false
      else similar_titles a.title b.title

  -- The loop over the ranked findings.
  unfoldable pub keep_loop : ℕ → List Finding → List Finding → List Finding
  keep_loop cap kept [] = kept
  keep_loop cap kept (candidate ∷ rest) =
      elim (any_of (λ existing. same_finding existing candidate) kept) [
        | true ↦ keep_loop cap kept rest
        | false ↦ elim (length (kept ++ candidate ∷ []) == cap) [
          | true ↦ kept ++ candidate ∷ []
          | false ↦ keep_loop cap (kept ++ candidate ∷ []) rest
        ]
      ]

  -- `RankAndCapFindings`
  unfoldable pub rank_and_cap : List Finding → ℤ → List Finding
  rank_and_cap findings max_inline_comments =
      keep_loop (cap_of max_inline_comments) [] (sort_by stronger findings)
