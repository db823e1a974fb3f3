-- ===== src/Review/LineMap/Tests.antt =====
-- Two findings against a diff of two ranges.
use px.Prelude.{◌≡◌, refl, not, [], ◌∷◌, map, ok, err, any_of, keep_if, if◌then◌else◌}
use px.Prelude.Paths.{clean}
use px.Prelude.Maps.{lookup, insert}
use px.Review.LineMap.{invalid_range, map_findings_to_diff}
use px.Review.LineMap.Partition.{is_anchored, explained, map_findings_to_diff-keep_if}
use px.Review.Samples.{nil_check, nil_check_again, leak, three_findings, diff}

-- The range 10 to 12 is inside 8 to 13; the range 12 to 14 is not; and `src/b.go` is not in the diff.
map_three :
    map_findings_to_diff three_findings diff
    ≡ ok (
      nil_check ∷ [],
      record { finding = nil_check_again; reason = "line range is not part of the current diff" }
          ∷ record { finding = leak; reason = "file has no commentable lines in the current diff" }
          ∷ [],
    )
unfolding map_findings_to_diff any_of clean lookup insert
map_three = refl

map_findings_to_diff-keep_if_example : map_findings_to_diff three_findings diff ≡ (
    if any_of invalid_range diff
    then err "diff range is invalid"
    else ok (
      keep_if (is_anchored diff) three_findings,
      map (explained diff) (keep_if (λ f. not (is_anchored diff f)) three_findings),
    ))
map_findings_to_diff-keep_if_example = map_findings_to_diff-keep_if three_findings diff
