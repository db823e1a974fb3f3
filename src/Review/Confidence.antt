-- ===== src/Review/Confidence.antt =====
-- internal/hosted/review/confidence.go: the zero-to-five rubric and the reasons of a score.
mod Drafts
mod Impacts
pub mod Rubric
mod Tests
use Prim.Native.String.{◌++◌ as concat}
use px.Prelude.{
  ℕ, String, len, Bool, true, false, ◌||◌, List, [], ◌∷◌, ◌++◌, ltb, str_eq, if◌then◌else◌, Result,
  ok, err, ◌>>◌, refuse_if, length, any_of,
}
use px.Prelude.Int.{ℤ, pos, negsuc, ltb_ℤ, leb_ℤ, eqb_ℤ, neg, wrap64, add64, mul64}
use px.Prelude.Float.{Float, zero_f, one_f, half_f, ltb_f}
use px.Prelude.Text.{show_ℤ, is_blank}

pub record ConfidenceInput : Type 0 where
  pub unresolved_p0 : ℤ
  pub unresolved_p1 : ℤ
  pub changed_lines : ℤ
  pub complexity_increase : ℤ
  pub changed_symbols : ℤ
  pub tested_symbols : ℤ
  pub high_risk_paths : ℤ
  pub pattern_fit : Float

pub record ConfidenceReason : Type 0 where
  pub input : String
  pub impact : ℤ
  pub detail : String

pub record ConfidenceScore : Type 0 where
  pub value : ℤ
  pub reasons : List ConfidenceReason

abbrev invalid_reason : ConfidenceReason → Bool
invalid_reason reason =
    str_eq reason.input ""
    || ltb 80 (len reason.input)
    || ltb_ℤ reason.impact (negsuc 4)
    || ltb_ℤ (pos 0) reason.impact
    || is_blank reason.detail
    || ltb 400 (len reason.detail)

abbrev invalid_counts : ConfidenceScore → Bool
invalid_counts s =
    ltb_ℤ s.value (pos 0)
    || ltb_ℤ (pos 5) s.value
    || ltb (length s.reasons) 1
    || ltb 8 (length s.reasons)

-- `ConfidenceScore.Validate`
unfoldable pub validate : ConfidenceScore → Result (Unit {0})
validate s = do
  refuse_if (invalid_counts s) "confidence score or reason count is invalid"
  refuse_if (any_of invalid_reason s.reasons) "confidence reason is invalid"

-- What `ScoreConfidence` has at hand between two deductions.
pub record Draft : Type 0 where
  pub score : ℤ
  pub reasons : List ConfidenceReason

abbrev pub empty_draft : Draft
empty_draft = record { score = pos 5; reasons = [] }

-- The closure `apply`.
unfoldable pub deduct : String → ℤ → String → Draft → Draft
deduct name impact detail d = if eqb_ℤ impact (pos 0) then d else record {
  score = add64 d.score impact;
  reasons = d.reasons ++ record { input = name; impact = impact; detail = detail } ∷ [];
}

abbrev pub min_ℤ : ℤ → ℤ → ℤ
min_ℤ a b = if ltb_ℤ b a then b else a

unfoldable pub p0_impact : ℤ → ℤ
p0_impact n = wrap64 (neg (min_ℤ (pos 4) (mul64 n (pos 2))))

unfoldable pub p1_impact : ℤ → ℤ
p1_impact n = wrap64 (neg (min_ℤ (pos 3) n))

-- The guard on the inputs.
unfoldable pub invalid_input : ConfidenceInput → Bool
invalid_input i =
    ltb_ℤ i.unresolved_p0 (pos 0)
    || ltb_ℤ i.unresolved_p1 (pos 0)
    || ltb_ℤ i.changed_lines (pos 0)
    || ltb_ℤ i.complexity_increase (pos 0)
    || ltb_ℤ i.changed_symbols (pos 0)
    || ltb_ℤ i.tested_symbols (pos 0)
    || ltb_ℤ i.changed_symbols i.tested_symbols
    || ltb_ℤ i.high_risk_paths (pos 0)
    || ltb_f i.pattern_fit zero_f
    || ltb_f one_f i.pattern_fit

-- `%.0f%%` of a hundred times a quotient and of a hundred times a float.
pub record PercentText : Type 0 where
  pub of_quotient : ℤ → ℤ → String
  pub of_float : Float → String

unfoldable pub deduct_p0 : ConfidenceInput → Draft → Draft
deduct_p0 i d =
    if ltb_ℤ (pos 0) i.unresolved_p0
    then deduct "unresolved_p0" (p0_impact i.unresolved_p0)
        (concat (show_ℤ i.unresolved_p0) " unresolved P0 findings") d
    else d

unfoldable pub deduct_p1 : ConfidenceInput → Draft → Draft
deduct_p1 i d =
    if ltb_ℤ (pos 0) i.unresolved_p1
    then deduct "unresolved_p1" (p1_impact i.unresolved_p1)
        (concat (show_ℤ i.unresolved_p1) " unresolved P1 findings") d
    else d

unfoldable pub deduct_lines : ConfidenceInput → Draft → Draft
deduct_lines i d =
    if ltb_ℤ (pos 3000) i.changed_lines
    then deduct "changed_lines" (negsuc 1) "more than 3,000 changed lines" d
    else if ltb_ℤ (pos 1000) i.changed_lines
    then deduct "changed_lines" (negsuc 0) "more than 1,000 changed lines" d
    else d

unfoldable pub deduct_complexity : ConfidenceInput → Draft → Draft
deduct_complexity i d =
    if ltb_ℤ (pos 15) i.complexity_increase
    then deduct "complexity" (negsuc 0) "complexity increased by more than 15" d
    else d

-- Without a deduction there is one reason, of impact zero.
abbrev pub or_default : List ConfidenceReason → List ConfidenceReason
or_default [] =
    record {
      input = "supporting_evidence";
      impact = pos 0;
      detail = "no rubric deductions applied";
    }
    ∷ []
or_default (r ∷ rs) = r ∷ rs

module _ (percent : PercentText) where
  -- `float64(tested)/float64(changed) < .5`: for counts below 2^53 the rounded quotient is less than
  -- a half exactly where the fraction is.
  unfoldable pub deduct_coverage : ConfidenceInput → Draft → Draft
  deduct_coverage i d =
      if ltb_ℤ (pos 0) i.changed_symbols
      then (if ltb_ℤ (mul64 (pos 2) i.tested_symbols) i.changed_symbols
          then deduct "test_coverage" (negsuc 0)
              (concat (percent.of_quotient i.tested_symbols i.changed_symbols)
                " of changed symbols have linked tests")
              d
          else d)
      else d

  unfoldable pub deduct_paths : ConfidenceInput → Draft → Draft
  deduct_paths i d =
      if ltb_ℤ (pos 0) i.high_risk_paths
      then deduct "path_risk" (negsuc 0)
          (concat (show_ℤ i.high_risk_paths) " high-risk paths changed") d
      else d

  unfoldable pub deduct_fit : ConfidenceInput → Draft → Draft
  deduct_fit i d =
      if ltb_f i.pattern_fit half_f
      then deduct "pattern_fit" (negsuc 0)
          (concat "repository pattern fit is " (percent.of_float i.pattern_fit)) d
      else d

  -- The deductions in the order of the source.
  unfoldable pub all_deductions : ConfidenceInput → Draft
  all_deductions i = deduct_fit i (
      deduct_paths i (
        deduct_coverage i
          (deduct_complexity i (deduct_lines i (deduct_p1 i (deduct_p0 i empty_draft))))))

  -- `ScoreConfidence`
  unfoldable pub score_confidence : ConfidenceInput → Result ConfidenceScore
  score_confidence i = do
    refuse_if (invalid_input i) "confidence inputs are outside their valid ranges"
    let d = all_deductions i
    ok (record {
      value = if ltb_ℤ d.score (pos 0) then pos 0 else d.score;
      reasons = or_default d.reasons;
    })
