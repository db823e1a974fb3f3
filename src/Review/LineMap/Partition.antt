-- ===== src/Review/LineMap/Partition.antt =====
-- internal/hosted/review/line_map.go: the loop over the findings against a test on the diff.

use px.Prelude.{
  String, ◌≡◌, refl, ap, ◌∙◌, inl, inr, Bool, true, false, not, ◌&&◌, ◌||◌, List, [], ◌∷◌, ◌++◌,
  map, arith, str_eq, eq_iff, if◌then◌else◌, Bool-cases, ok, err, any_of, any_of-append, any_of_ext,
  keep_if,
}
use px.Prelude.Paths.{clean}
use px.Prelude.Maps.{lookup, insert, lookup-insert, string_eq}
use px.Review.Finding.{Finding}
use px.Review.LineMap.{
  DiffRange, SummaryFinding, Spans, ranges_of, invalid_range, group_ranges, covers, no_ranges,
  split_findings, map_findings_to_diff,
}

-- The span is on the finding's file.
abbrev pub on_file : Finding → DiffRange → Bool
on_file finding span = str_eq (clean finding.path) (clean span.path)

-- Some changed range of the finding's file holds the finding's complete range.
abbrev pub is_anchored : List DiffRange → Finding → Bool
is_anchored changed finding = any_of (λ span. on_file finding span && covers finding span) changed

ranges_of-insert :
    (k j : String) (spans : List DiffRange) (m : Spans)
    → ranges_of j (insert k spans m) ≡ (if str_eq j k then spans else ranges_of j m)
unfolding ranges_of
ranges_of-insert k j spans m = ground (arith, lookup-insert k j spans m)

-- A test that does not read the path finds in the map what it finds among the ranges of that path.
group_ranges-any_of :
    (p : DiffRange → Bool) (path : String)
    → ((s : DiffRange) → p (record s { path = clean s.path }) ≡ p s)
    → (changed : List DiffRange) (m m' : Spans) → group_ranges m changed ≡ ok m'
    → any_of p (ranges_of path m') ≡ (
        any_of p (ranges_of path m)
        || any_of (λ span. str_eq path (clean span.path) && p span) changed)
unfolding group_ranges any_of
group_ranges-any_of p path same_p [] m m' h = ground arith
group_ranges-any_of p path same_p (s ∷ ss) m m' h =
    let key = clean s.path in
    let s' : DiffRange = record s { path = key } in
    let spans = ranges_of key m ++ s' ∷ [] in
    ground (
      arith,
      group_ranges-any_of p path same_p ss (insert key spans m) m',
      ranges_of-insert key path spans m,
      any_of-append p (ranges_of key m) (s' ∷ []),
      same_p s,
      eq_iff path key,
    )

any_of-no_ranges : (p : DiffRange → Bool) (path : String) → any_of p (ranges_of path []) ≡ false
unfolding any_of ranges_of lookup
any_of-no_ranges p path = refl

-- The ranges of a file, read from the map and read from the diff.
any_covers :
    (finding : Finding) (changed : List DiffRange) (m : Spans)
    → group_ranges [] changed ≡ ok m
    → any_of (covers finding) (ranges_of (clean finding.path) m) ≡ is_anchored changed finding
unfolding covers
any_covers finding changed m h =
    group_ranges-any_of (covers finding) (clean finding.path) (λ s. refl) changed [] m h
    ∙ ap (λ b. b || is_anchored changed finding)
        (any_of-no_ranges (covers finding) (clean finding.path))

-- Some changed range is on the finding's file.
abbrev pub has_range : List DiffRange → Finding → Bool
has_range changed finding = any_of (on_file finding) changed

no_ranges-any_of : (spans : List DiffRange) → no_ranges spans ≡ not (any_of (λ s. true) spans)
unfolding no_ranges any_of
no_ranges-any_of [] = refl
no_ranges-any_of (s ∷ ss) = refl

any_range :
    (finding : Finding) (changed : List DiffRange) (m : Spans)
    → group_ranges [] changed ≡ ok m
    → no_ranges (ranges_of (clean finding.path) m) ≡ not (has_range changed finding)
any_range finding changed m h =
    let path = clean finding.path in
    no_ranges-any_of (ranges_of path m)
    ∙ ap not (
        group_ranges-any_of (λ s. true) path (λ s. refl) changed [] m h
        ∙ ap (λ b. b || any_of (λ span. str_eq path (clean span.path) && true) changed)
            (any_of-no_ranges (λ s. true) path)
        ∙ any_of_ext _ (on_file finding) (λ s. ground arith) changed)

-- How a finding that has no anchor is explained.
abbrev pub explained : List DiffRange → Finding → SummaryFinding
explained changed finding = record {
  finding = finding;
  reason =
      if has_range changed finding
      then "line range is not part of the current diff"
      else "file has no commentable lines in the current diff";
}

split_findings-keep_if :
    (changed : List DiffRange) (m : Spans)
    → group_ranges [] changed ≡ ok m
    → (findings : List Finding)
    → split_findings m findings ≡ (
      keep_if (is_anchored changed) findings,
      map (explained changed) (keep_if (λ f. not (is_anchored changed f)) findings),
    )
unfolding split_findings keep_if
split_findings-keep_if changed m h [] = refl
split_findings-keep_if changed m h (f ∷ fs) = ground (
  arith,
  split_findings-keep_if changed m h fs,
  any_covers f changed m h,
  any_range f changed m h,
)

group_ranges-ok :
    (changed : List DiffRange) (m : Spans)
    → any_of invalid_range changed ≡ false
    → (m' : Spans) × (group_ranges m changed ≡ ok m')
unfolding group_ranges any_of
group_ranges-ok [] m h = (m, refl)
group_ranges-ok (s ∷ ss) m h =
    let key = clean s.path in
    let rest =
      group_ranges-ok ss (insert key (ranges_of key m ++ record s { path = key } ∷ []) m)
        (ground arith) in
    (rest.0, ground (arith, rest.1))

group_ranges-err :
    (changed : List DiffRange) (m : Spans)
    → any_of invalid_range changed ≡ true
    → group_ranges m changed ≡ err "diff range is invalid"
unfolding group_ranges any_of
group_ranges-err [] m h = cc
group_ranges-err (s ∷ ss) m h =
    let key = clean s.path in
    ground
      (arith, group_ranges-err ss (insert key (ranges_of key m ++ record s { path = key } ∷ []) m))

-- A diff with an invalid range is refused. Otherwise the inline findings are exactly the anchored
-- ones, in their order, and the summary holds exactly the others, each with the reason that fits:
-- whether the diff has a range of its file.
pub map_findings_to_diff-keep_if :
    (findings : List Finding) (changed : List DiffRange)
    → map_findings_to_diff findings changed ≡ (
        if any_of invalid_range changed
        then err "diff range is invalid"
        else ok (
          keep_if (is_anchored changed) findings,
          map (explained changed) (keep_if (λ f. not (is_anchored changed f)) findings),
        ))
unfolding map_findings_to_diff
map_findings_to_diff-keep_if findings changed = elim (Bool-cases (any_of invalid_range changed)) [
  | inl e ↦ rw (e, group_ranges-err changed [] e)
  | inr e ↦
      let (m, grouped) = group_ranges-ok changed [] e in
      rw (e, grouped) (ap ok (split_findings-keep_if changed m grouped findings))
]
