-- ===== src/Review/Confidence/Rubric.antt =====
-- internal/hosted/review/confidence.go: the sum and the bounds of a score.
use px.Prelude.{
  ◌^◌, ◌≤◌, ◌≡◌, refl, false, List, [], ◌∷◌, arith, if◌then◌else◌, ok, length, All, All-map,
}
use px.Prelude.Int.{pos, negsuc, ◌+ℤ◌, ◌≤ℤ◌, ◌<ℤ◌, ltb_ℤ, int_laws}
use px.Review.Confidence.{
  ConfidenceInput, ConfidenceReason, ConfidenceScore, invalid_input, PercentText, all_deductions,
  or_default, score_confidence,
}
use px.Review.Confidence.Drafts.{total_impact, IsDeduction, all_deductions-IsDraft}

-- What a score says.
pub record IsScore (s : ConfidenceScore) : Type 0 where
  pub within : (pos 0 ≤ℤ s.value) × (s.value ≤ℤ pos 5)
  pub explained :
      s.value
      ≡ (let left = pos 5 +ℤ total_impact s.reasons in if ltb_ℤ left (pos 0) then pos 0 else left)
  pub some_reason : 1 ≤ length s.reasons
  pub few_reasons : length s.reasons ≤ 7
  pub impacts : All (λ r. (negsuc 3 ≤ℤ r.impact) × (r.impact ≤ℤ pos 0)) s.reasons

or_default-impacts :
    (rs : List ConfidenceReason)
    → All IsDeduction rs
    → (total_impact (or_default rs) ≡ total_impact rs)
      × All (λ r. (negsuc 3 ≤ℤ r.impact) × (r.impact ≤ℤ pos 0)) (or_default rs)
unfolding total_impact
or_default-impacts [] h = (omega int_laws, (omega arith, tt))
or_default-impacts (r ∷ rs) h = (refl, All-map (λ r k. omega (arith, k.0, k.1)) (r ∷ rs) h)

length-or_default :
    (rs : List ConfidenceReason)
    → length rs ≤ 7
    → (1 ≤ length (or_default rs)) × (length (or_default rs) ≤ 7)
length-or_default [] h = omega arith
length-or_default (r ∷ rs) h = omega arith

-- For valid inputs with fewer than 2^62 unresolved P0 findings, the confidence score is five plus
-- the impacts of its reasons, raised to zero, within zero to five, with one to seven reasons that
-- each take off at most four.
pub score_confidence-IsScore :
    (percent : PercentText) (i : ConfidenceInput)
    → invalid_input i ≡ false
    → i.unresolved_p0 <ℤ pos (2 ^ 62)
    → (s : ConfidenceScore) × (score_confidence percent i ≡ ok s) × IsScore s
unfolding score_confidence
score_confidence-IsScore percent i valid few =
    let d = all_deductions percent i in
    let h = all_deductions-IsDraft percent i few in
    let (same_total, bounded) = or_default-impacts d.reasons h.deductions in
    let (some_reason, few_reasons) = length-or_default d.reasons h.counted in
    (
      record {
        value = if ltb_ℤ d.score (pos 0) then pos 0 else d.score;
        reasons = or_default d.reasons;
      },
      rw valid,
      record {
        within = (ground (arith, h.high), ground (arith, h.high));
        explained = rw (same_total, h.summed);
        some_reason = some_reason;
        few_reasons = few_reasons;
        impacts = bounded;
      },
    )
