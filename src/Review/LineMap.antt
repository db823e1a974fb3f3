-- ===== src/Review/LineMap.antt =====
-- internal/hosted/review/line_map.go: which findings GitHub can anchor on the diff.
pub mod Partition
mod Tests
use px.Prelude.{
  String, Bool, true, false, ◌&&◌, ◌||◌, Option, none, some, List, [], ◌∷◌, ◌++◌, str_eq,
  if◌then◌else◌, Result, ok, err, ◌>>=◌, ◌>>◌, refuse_if, any_of,
}
use px.Prelude.Int.{ℤ, pos, ltb_ℤ, leb_ℤ}
use px.Prelude.Paths.{clean, is_abs, escapes}
use px.Prelude.Maps.{lookup, insert, string_eq}
use px.Review.Finding.{Finding}

pub record DiffRange : Type 0 where
  pub path : String
  pub start_line : ℤ
  pub end_line : ℤ

pub record SummaryFinding : Type 0 where
  pub finding : Finding
  pub reason : String

abbrev pub Spans : Type 0
Spans = List (String × List DiffRange)

-- `byPath[path]`; a missing key reads the empty slice.
unfoldable pub ranges_of : String → Spans → List DiffRange
ranges_of path by_path = elim (lookup path by_path) [ none ↦ [] | some spans ↦ spans ]

-- The guard on a changed range.
unfoldable pub invalid_range : DiffRange → Bool
invalid_range span =
    str_eq span.path ""
    || is_abs span.path
    || escapes (clean span.path)
    || leb_ℤ span.start_line (pos 0)
    || ltb_ℤ span.end_line span.start_line

-- The loop that fills `byPath`.
unfoldable pub group_ranges : Spans → List DiffRange → Result Spans
unfolding invalid_range ranges_of
group_ranges by_path [] = ok by_path
group_ranges by_path (span ∷ rest) =
    let path = clean span.path in
    refuse_if (invalid_range span) "diff range is invalid"
    >> group_ranges
        (insert path (ranges_of path by_path ++ record span { path = path } ∷ []) by_path) rest

-- The complete range of the finding lies in the span.
unfoldable pub covers : Finding → DiffRange → Bool
covers finding span =
    leb_ℤ span.start_line finding.start_line && leb_ℤ finding.end_line span.end_line

unfoldable pub no_ranges : List DiffRange → Bool
no_ranges [] = true
no_ranges (span ∷ spans) = false

abbrev summarize : Finding → List DiffRange → SummaryFinding
summarize finding ranges = record {
  finding = finding;
  reason =
      if no_ranges ranges
      then "file has no commentable lines in the current diff"
      else "line range is not part of the current diff";
}

-- The loop over the findings: those to post inline, and those for the summary.
unfoldable pub split_findings : Spans → List Finding → List Finding × List SummaryFinding
unfolding ranges_of no_ranges covers
split_findings by_path [] = ([], [])
split_findings by_path (finding ∷ rest) =
    let ranges = ranges_of (clean finding.path) by_path in
    let (inline, summary) = split_findings by_path rest in
    if any_of (covers finding) ranges
    then (finding ∷ inline, summary)
    else (inline, summarize finding ranges ∷ summary)

-- `MapFindingsToDiff`
unfoldable pub map_findings_to_diff :
    List Finding → List DiffRange → Result (List Finding × List SummaryFinding)
unfolding group_ranges split_findings
map_findings_to_diff findings changed = do
  by_path ← group_ranges [] changed
  ok (split_findings by_path findings)
