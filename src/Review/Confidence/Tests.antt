-- ===== src/Review/Confidence/Tests.antt =====
-- A review with one P0 finding and a large change.
use px.Prelude.{◌≡◌, refl, false, [], ◌∷◌, ok, arith}
use px.Prelude.Int.{pos, negsuc, wrap64, ◌+ℤ◌, ◌*ℤ◌}
use px.Prelude.Float.{one_f, half_f}
use px.Prelude.Text.{show_ℤ}
use px.Review.Confidence.{
  ConfidenceInput, ConfidenceScore, PercentText, deduct, p0_impact, p1_impact, invalid_input,
  deduct_p0, deduct_p1, deduct_lines, deduct_complexity, deduct_coverage, deduct_paths, deduct_fit,
  all_deductions, score_confidence,
}
use px.Review.Confidence.Rubric.{IsScore, score_confidence-IsScore}

abbrev percent : PercentText
percent = record { of_quotient = λ a b. "0%"; of_float = λ f. "0%" }

abbrev risky : ConfidenceInput
risky = record {
  unresolved_p0 = pos 1;
  unresolved_p1 = pos 0;
  changed_lines = pos 1200;
  complexity_increase = pos 3;
  changed_symbols = pos 4;
  tested_symbols = pos 2;
  high_risk_paths = pos 0;
  pattern_fit = pos 5404319552844595;
}

risky_valid : invalid_input risky ≡ false
unfolding invalid_input one_f
risky_valid = refl

-- Five, less two for the P0 finding, one for the lines and one for the fit.
score_risky :
    score_confidence percent risky
    ≡ ok (record {
      value = pos 1;
      reasons =
          record { input = "unresolved_p0"; impact = negsuc 1; detail = "1 unresolved P0 findings" }
          ∷ record {
            input = "changed_lines";
            impact = negsuc 0;
            detail = "more than 1,000 changed lines";
          }
          ∷ record {
            input = "pattern_fit";
            impact = negsuc 0;
            detail = "repository pattern fit is 0%";
          }
          ∷ [];
    })
unfolding score_confidence all_deductions deduct_p0 deduct_p1 deduct_lines deduct_complexity
    deduct_coverage deduct_paths deduct_fit deduct p0_impact p1_impact invalid_input wrap64 ◌+ℤ◌
    ◌*ℤ◌ one_f half_f show_ℤ
score_risky = refl

score_confidence-IsScore_example :
    (s : ConfidenceScore) × (score_confidence percent risky ≡ ok s) × IsScore s
score_confidence-IsScore_example = score_confidence-IsScore percent risky risky_valid (omega arith)
