-- ===== src/Review/Addressed/Sequence.antt =====
-- internal/hosted/review/addressed.go: containsLineSequence against contiguous parts of a list.
use px.Prelude.{
  ◌≤◌, ◌≡◌, ◌≢◌, ◌↔◌, refl, ap, true, String, List, [], ◌∷◌, ◌++◌, arith, eq_iff, Bool-cases, inl,
  inr, length, length-append,
}
use px.Review.Addressed.{matches_here, scan_lines, contains_line_sequence}

-- `wanted` is a contiguous part of `lines`.
abbrev pub Occurs : List String → List String → Type 0
Occurs wanted lines = (before after : List String) × (lines ≡ before ++ (wanted ++ after))

matches_here_sound :
    (lines wanted : List String)
    → matches_here lines wanted ≡ true
    → (after : List String) × (lines ≡ wanted ++ after)
unfolding matches_here
matches_here_sound lines [] h = (lines, refl)
matches_here_sound [] (w ∷ ws) h = cc
matches_here_sound (l ∷ ls) (w ∷ ws) h =
    let (after, e) = matches_here_sound ls ws (ground arith) in
    (after, ground (arith, eq_iff l w, e))

matches_here_complete : (wanted after : List String) → matches_here (wanted ++ after) wanted ≡ true
unfolding matches_here
matches_here_complete [] after = refl
matches_here_complete (w ∷ ws) after = ground (arith, eq_iff w w, matches_here_complete ws after)

scan_lines_sound :
    (lines wanted : List String) → scan_lines lines wanted ≡ true → Occurs wanted lines
unfolding scan_lines
scan_lines_sound [] wanted h = cc
scan_lines_sound (l ∷ ls) wanted h = elim (Bool-cases (matches_here (l ∷ ls) wanted)) [
  | inl here ↦ let (after, e) = matches_here_sound (l ∷ ls) wanted here in ([], after, e)
  | inr there ↦
      let (before, after, e) = scan_lines_sound ls wanted (ground arith) in
      (l ∷ before, after, ap (λ xs. l ∷ xs) e)
]

scan_lines_complete :
    (wanted before after : List String)
    → wanted ≢ []
    → scan_lines (before ++ (wanted ++ after)) wanted ≡ true
unfolding scan_lines
scan_lines_complete [] before after some_wanted = absurd (some_wanted refl)
scan_lines_complete (w ∷ ws) [] after some_wanted = ground (
  arith,
  matches_here_complete (w ∷ ws) after,
  length-append {0} ws after,
  length-append {0} (w ∷ ws) after,
)
scan_lines_complete (w ∷ ws) (b ∷ bs) after some_wanted = ground (
  arith,
  scan_lines_complete (w ∷ ws) bs after,
  length-append {0} bs ((w ∷ ws) ++ after),
  length-append {0} ws after,
)

length-Occurs : (lines wanted : List String) → Occurs wanted lines → length wanted ≤ length lines
length-Occurs lines wanted (before, after, e) =
    rw e (omega (arith, length-append before (wanted ++ after), length-append wanted after))

contains_line_sequence_complete :
    (wanted before after : List String)
    → wanted ≢ []
    → contains_line_sequence (before ++ (wanted ++ after)) wanted ≡ true
unfolding contains_line_sequence
contains_line_sequence_complete [] before after some_wanted = absurd (some_wanted refl)
contains_line_sequence_complete (w ∷ ws) before after some_wanted = ground (
  arith,
  scan_lines_complete (w ∷ ws) before after some_wanted,
  length-Occurs (before ++ ((w ∷ ws) ++ after)) (w ∷ ws) (before, after, refl),
)

contains_line_sequence_sound :
    (lines wanted : List String)
    → contains_line_sequence lines wanted ≡ true
    → (wanted ≢ []) × Occurs wanted lines
unfolding contains_line_sequence
contains_line_sequence_sound lines [] h = cc
contains_line_sequence_sound lines (w ∷ ws) h =
    (λ e. cc, scan_lines_sound lines (w ∷ ws) (ground arith))

-- The search answers true exactly for a non-empty sequence that occurs in the lines.
pub contains_line_sequence_iff :
    (lines wanted : List String)
    → (contains_line_sequence lines wanted ≡ true) ↔ (wanted ≢ []) × Occurs wanted lines
contains_line_sequence_iff lines wanted = (
  contains_line_sequence_sound lines wanted,
  λ p.
      let (some_wanted, occurs) = p in
      let (before, after, e) = occurs in
      rw e (contains_line_sequence_complete wanted before after some_wanted),
)
