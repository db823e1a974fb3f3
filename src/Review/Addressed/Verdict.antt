-- ===== src/Review/Addressed/Verdict.antt =====
-- The verdict of `DetectAddressed`, in terms of the files that the reader answers.
use mathlib.Core.Bool.{false≢true}
use px.Prelude.{
  ℕ, zero, suc, ◌-◌, ◌<◌, ◌≡◌, ◌≢◌, ◌↔◌, refl, sym, ◌∙◌, Bool, true, false, String, len, Option,
  none, some, List, [], ◌∷◌, arith, leb, Bool-cases, inl, inr, ok, length, take, drop,
}
use px.Prelude.Int.{ℤ, pos, pos_part, leb_ℤ, ltb_ℤ}
use px.Prelude.Text.{join}
use px.Prelude.Paths.{clean}
use px.Review.Addressed.{
  AddressedInput, AddressedResult, ReadFile, invalid_input, judge, detect_addressed,
  max_addressed_file_bytes, range_of, split_review_lines, contains_line_sequence,
}
use px.Review.Addressed.Sequence.{Occurs, contains_line_sequence_iff}

take-ne-nil :
    (n m : ℕ) (lines : List String) → 0 < n → m < length lines → take n (drop m lines) ≢ []
take-ne-nil n m [] hn h = absurd (omega arith)
take-ne-nil zero m (l ∷ ls) hn h = absurd (omega arith)
take-ne-nil (suc n) zero (l ∷ ls) hn h = λ e. cc
take-ne-nil (suc n) (suc m) (l ∷ ls) hn h = take-ne-nil (suc n) m ls (omega arith) (omega arith)

-- A valid range within the file holds at least one line.
range_of-ne-nil :
    (start stop : ℤ) (lines : List String)
    → leb_ℤ start (pos 0) ≡ false
    → ltb_ℤ stop start ≡ false
    → ltb_ℤ (pos (length lines)) stop ≡ false
    → range_of start stop lines ≢ []
range_of-ne-nil start stop lines a b c =
    take-ne-nil (pos_part stop - (pos_part start - 1)) (pos_part start - 1) lines (ground arith)
      (ground arith)

-- The reviewed lines are still in the file of the merge revision.
abbrev pub StillThere : List String → Option String → Type 0
StillThere wanted none = ⊥
StillThere wanted (some merged) = Occurs wanted (split_review_lines merged)

abbrev pub fits : Option String → Bool
fits none = true
fits (some merged) = leb (len merged) max_addressed_file_bytes

judge-exact :
    (fingerprint : String) (wanted : List String) (merged : Option String)
    → wanted ≢ []
    → fits merged ≡ true
    → (r : AddressedResult) × (judge fingerprint wanted merged ≡ ok r)
      × ((r.addressed ≡ false) ↔ StillThere wanted merged)
      × (r.original_fingerprint ≡ fingerprint)
unfolding judge
judge-exact fingerprint wanted none some_wanted small = (_, refl, (λ e. cc, λ h. absurd h), refl)
judge-exact fingerprint wanted (some merged) some_wanted small =
    elim (Bool-cases (contains_line_sequence (split_review_lines merged) wanted)) [
      | inl there ↦ (
        record {
          addressed = false;
          reason = "reviewed lines remain unchanged at merge";
          original_fingerprint = fingerprint;
        },
        ground arith,
        (λ e. ((contains_line_sequence_iff _ wanted).0 there).1, λ h. refl),
        refl,
      )
      | inr gone ↦ (
        record {
          addressed = true;
          reason = "reviewed lines changed before merge";
          original_fingerprint = fingerprint;
        },
        ground arith,
        (
          λ e. cc,
          λ h.
              absurd
                (false≢true (sym gone ∙ (contains_line_sequence_iff _ wanted).1 (some_wanted, h))),
        ),
        refl,
      )
    ]

valid_range :
    (i : AddressedInput)
    → invalid_input i ≡ false
    → (leb_ℤ i.start_line (pos 0) ≡ false) × (ltb_ℤ i.end_line i.start_line ≡ false)
unfolding invalid_input
valid_range i h = ground arith

-- The reader answers a reviewed file within the limit that has the reviewed lines, and a merged file, if
-- there is one, within the limit. Then there is a result: it says that the lines were left alone exactly
-- where the reviewed lines occur, in one piece, anywhere in the merged file, and it carries the
-- fingerprint of the reviewed lines.
pub detect_addressed-exact :
    (read_file : ReadFile) (sha256_hex : String → String) (i : AddressedInput)
    → (original : String) (merged : Option String) → invalid_input i ≡ false
    → read_file i.installation_id i.repository_id i.review_sha (clean i.path) ≡ ok (some original)
    → read_file i.installation_id i.repository_id i.merge_sha (clean i.path) ≡ ok merged
    → leb (len original) max_addressed_file_bytes ≡ true
    → ltb_ℤ (pos (length (split_review_lines original))) i.end_line ≡ false
    → fits merged ≡ true
    → let wanted = range_of i.start_line i.end_line (split_review_lines original) in
      (r : AddressedResult) × (detect_addressed read_file sha256_hex i ≡ ok r)
      × ((r.addressed ≡ false) ↔ StillThere wanted merged)
      × (r.original_fingerprint ≡ sha256_hex (join "\n" wanted))
unfolding detect_addressed
detect_addressed-exact read_file sha256_hex i original merged valid there then_file small long fit =
    let wanted = range_of i.start_line i.end_line (split_review_lines original) in
    let range = valid_range i valid in
    let some_wanted =
      range_of-ne-nil i.start_line i.end_line (split_review_lines original) range.0 range.1 long in
    let (r, judged, exact, print) =
      judge-exact (sha256_hex (join "\n" wanted)) wanted merged some_wanted fit in
    (r, ground (arith, judged), exact, print)
