-- ===== src/Review/Addressed/Tests.antt =====
-- Two reviewed lines that an insertion moved down, and that a later commit changed.
use px.Prelude.{
  ◌≡◌, ◌≢◌, ◌↔◌, refl, true, false, String, none, some, List, [], ◌∷◌, ok, str_eq, if◌then◌else◌,
}
use px.Prelude.Int.{pos}
use px.Prelude.Paths.{clean}
use px.Prelude.Text.{join}
use px.Review.ReReview.{full_sha}
use px.Review.Addressed.{
  AddressedInput, AddressedResult, ReadFile, invalid_input, contains_line_sequence,
  split_review_lines, judge, range_of, detect_addressed,
}
use px.Review.Addressed.Sequence.{Occurs, contains_line_sequence_iff}
use px.Review.Addressed.Verdict.{StillThere, detect_addressed-exact}
use px.Review.Samples.{sha_a, sha_b}

abbrev last_line : List String
last_line = "b" ∷ []

abbrev two_lines : List String
two_lines = "a" ∷ "b" ∷ []

contains_line_sequence_iff_example :
    (contains_line_sequence two_lines last_line ≡ true)
    ↔ (last_line ≢ []) × Occurs last_line two_lines
contains_line_sequence_iff_example = contains_line_sequence_iff two_lines last_line

abbrev reviewed : String
reviewed = "one\r\ntwo\nthree\n"

abbrev merged : String
merged = "zero\none\ntwo\nthree\n"

abbrev files : ReadFile
files installation repository sha path =
    ok (if str_eq sha sha_a then some reviewed else if str_eq sha sha_b then some merged else none)

abbrev lines_two_three : AddressedInput
lines_two_three = record {
  installation_id = pos 1;
  repository_id = pos 2;
  review_sha = sha_a;
  merge_sha = sha_b;
  path = "src/a.go";
  start_line = pos 2;
  end_line = pos 3;
}

abbrev same_text : String → String
same_text s = s

input_valid : invalid_input lines_two_three ≡ false
unfolding invalid_input full_sha clean
input_valid = refl

range_fits : split_review_lines reviewed ≡ "one" ∷ "two" ∷ "three" ∷ []
unfolding split_review_lines
range_fits = refl

moved_down :
    detect_addressed files same_text lines_two_three
    ≡ ok (record {
      addressed = false;
      reason = "reviewed lines remain unchanged at merge";
      original_fingerprint = "two\nthree";
    })
unfolding detect_addressed judge invalid_input full_sha clean contains_line_sequence
    split_review_lines join
moved_down = refl

detect_addressed-exact_example :
    (r : AddressedResult) × (detect_addressed files same_text lines_two_three ≡ ok r)
    × ((r.addressed ≡ false)
        ↔ StillThere (range_of (pos 2) (pos 3) (split_review_lines reviewed)) (some merged))
    × (r.original_fingerprint
        ≡ same_text (join "\n" (range_of (pos 2) (pos 3) (split_review_lines reviewed))))
unfolding split_review_lines
detect_addressed-exact_example =
    detect_addressed-exact files same_text lines_two_three reviewed (some merged) input_valid refl
      refl refl refl refl
