-- ===== src/Review/Confidence/Drafts.antt =====
-- internal/hosted/review/confidence.go: the draft of a score, its sum and its bounds after each deduction.
use px.Prelude.{
  ℕ, suc, ◌*◌, ◌^◌, ◌≤◌, ◌≡◌, refl, String, Bool, true, false, List, [], ◌∷◌, ◌++◌, arith, inl, inr,
  if◌then◌else◌, Bool-cases, length, length-append, All, All-append,
}
use px.Prelude.Int.{
  ℤ, pos, negsuc, ◌+ℤ◌, ◌≤ℤ◌, ◌<ℤ◌, pos_part, neg_part, ltb_ℤ, wrap64, int_laws, +ℤ_parts,
  wrap64-eq_of_InRange64,
}
use px.Review.Confidence.{
  ConfidenceInput, ConfidenceReason, Draft, empty_draft, deduct, p0_impact, p1_impact, PercentText,
  deduct_p0, deduct_p1, deduct_lines, deduct_complexity, deduct_coverage, deduct_paths, deduct_fit,
  all_deductions,
}
use px.Review.Confidence.Impacts.{p0_Takes, p1_Takes, one_Takes}

-- The sum of the impacts.
unfoldable pub total_impact : List ConfidenceReason → ℤ
total_impact [] = pos 0
total_impact (r ∷ rs) = r.impact +ℤ total_impact rs

-- An impact takes off between one and four.
abbrev pub IsDeduction : ConfidenceReason → Type 0
IsDeduction r = (negsuc 3 ≤ℤ r.impact) × (r.impact ≤ℤ negsuc 0)

-- After at most `n` deductions: the score is five less what the reasons say.
pub record IsDraft (n : ℕ) (d : Draft) : Type 0 where
  pub counted : length d.reasons ≤ n
  pub summed : d.score ≡ pos 5 +ℤ total_impact d.reasons
  pub low : neg_part d.score ≤ 4 * n
  pub high : pos_part d.score ≤ 5
  pub deductions : All IsDeduction d.reasons

total_impact-append :
    (rs : List ConfidenceReason) (r : ConfidenceReason)
    → total_impact (rs ++ r ∷ []) ≡ total_impact rs +ℤ r.impact
unfolding total_impact
total_impact-append [] r = omega int_laws
total_impact-append (x ∷ xs) r = rw (total_impact-append xs r) (omega int_laws)

add_in_range :
    (a b : ℤ)
    → neg_part a ≤ 40
    → pos_part a ≤ 5
    → neg_part b ≤ 4
    → pos_part b ≤ 0
    → wrap64 (a +ℤ b) ≡ a +ℤ b
add_in_range a b la ha lb hb =
    wrap64-eq_of_InRange64 (a +ℤ b) (ground (arith, +ℤ_parts a b), ground (arith, +ℤ_parts a b))

deduct_lem :
    (n : ℕ) (name : String) (impact : ℤ) (detail : String) (d : Draft)
    → n ≤ 10
    → IsDeduction (record { input = name; impact = impact; detail = detail })
    → IsDraft n d
    → deduct name impact detail d ≡ record {
      score = d.score +ℤ impact;
      reasons = d.reasons ++ record { input = name; impact = impact; detail = detail } ∷ [];
    }
unfolding deduct
deduct_lem n name impact detail d small is h = ground (arith, add_in_range d.score impact)

deduct-IsDraft :
    (n : ℕ) (name : String) (impact : ℤ) (detail : String) (d : Draft)
    → n ≤ 10
    → IsDeduction (record { input = name; impact = impact; detail = detail })
    → IsDraft n d
    → IsDraft (suc n) (deduct name impact detail d)
deduct-IsDraft n name impact detail d small is h =
    let r : ConfidenceReason = record { input = name; impact = impact; detail = detail } in
    rw (deduct_lem n name impact detail d small is h) (record {
      counted = omega (arith, length-append d.reasons (r ∷ []));
      summed = rw (total_impact-append d.reasons r, h.summed) (omega int_laws);
      low = ground (arith, +ℤ_parts d.score impact);
      high = ground (arith, +ℤ_parts d.score impact);
      deductions = All-append IsDeduction d.reasons (r ∷ []) h.deductions (is, tt);
    })

IsDraft-suc : (n : ℕ) (d : Draft) → IsDraft n d → IsDraft (suc n) d
IsDraft-suc n d h = record {
  counted = omega (arith, h.counted);
  summed = h.summed;
  low = omega (arith, h.low);
  high = h.high;
  deductions = h.deductions;
}

deduct_if-IsDraft :
    (b : Bool) (n : ℕ) (name : String) (impact : ℤ) (detail : String) (d : Draft)
    → n ≤ 10
    → (b ≡ true → IsDeduction (record { input = name; impact = impact; detail = detail }))
    → IsDraft n d
    → IsDraft (suc n) (if b then deduct name impact detail d else d)
deduct_if-IsDraft true n name impact detail d small is h =
    deduct-IsDraft n name impact detail d small (is refl) h
deduct_if-IsDraft false n name impact detail d small is h = IsDraft-suc n d h

deduct_lines-IsDraft :
    (n : ℕ) (i : ConfidenceInput) (d : Draft)
    → n ≤ 10
    → IsDraft n d
    → IsDraft (suc n) (deduct_lines i d)
unfolding deduct_lines
deduct_lines-IsDraft n i d small h = elim (Bool-cases (ltb_ℤ (pos 3000) i.changed_lines)) [
  | inl e ↦ rw e (deduct-IsDraft n _ (negsuc 1) _ d small (omega arith) h)
  | inr e ↦ rw e (deduct_if-IsDraft _ n _ (negsuc 0) _ d small (λ _. one_Takes) h)
]

deduct_coverage-IsDraft :
    (percent : PercentText) (n : ℕ) (i : ConfidenceInput) (d : Draft)
    → n ≤ 10
    → IsDraft n d
    → IsDraft (suc n) (deduct_coverage percent i d)
unfolding deduct_coverage
deduct_coverage-IsDraft percent n i d small h =
    elim (Bool-cases (ltb_ℤ (pos 0) i.changed_symbols)) [
      | inl e ↦ rw e (deduct_if-IsDraft _ n _ (negsuc 0) _ d small (λ _. one_Takes) h)
      | inr e ↦ rw e (IsDraft-suc n d h)
    ]

module _ (n : ℕ) (small : n ≤ 10) (i : ConfidenceInput) (d : Draft) (h : IsDraft n d) where
  deduct_p0-IsDraft : i.unresolved_p0 <ℤ pos (2 ^ 62) → IsDraft (suc n) (deduct_p0 i d)
  unfolding deduct_p0
  deduct_p0-IsDraft few =
      deduct_if-IsDraft _ n _ (p0_impact i.unresolved_p0) _ d small (p0_Takes i.unresolved_p0 few) h

  deduct_p1-IsDraft : IsDraft (suc n) (deduct_p1 i d)
  unfolding deduct_p1
  deduct_p1-IsDraft =
      deduct_if-IsDraft _ n _ (p1_impact i.unresolved_p1) _ d small (p1_Takes i.unresolved_p1) h

  deduct_complexity-IsDraft : IsDraft (suc n) (deduct_complexity i d)
  unfolding deduct_complexity
  deduct_complexity-IsDraft = deduct_if-IsDraft _ n _ (negsuc 0) _ d small (λ _. one_Takes) h

  deduct_paths-IsDraft : (percent : PercentText) → IsDraft (suc n) (deduct_paths percent i d)
  unfolding deduct_paths
  deduct_paths-IsDraft percent = deduct_if-IsDraft _ n _ (negsuc 0) _ d small (λ _. one_Takes) h

  deduct_fit-IsDraft : (percent : PercentText) → IsDraft (suc n) (deduct_fit percent i d)
  unfolding deduct_fit
  deduct_fit-IsDraft percent = deduct_if-IsDraft _ n _ (negsuc 0) _ d small (λ _. one_Takes) h

empty_draft-IsDraft : IsDraft 0 empty_draft
unfolding total_impact
empty_draft-IsDraft = record {
  counted = omega arith;
  summed = omega int_laws;
  low = omega arith;
  high = omega arith;
  deductions = tt;
}

pub all_deductions-IsDraft :
    (percent : PercentText) (i : ConfidenceInput)
    → i.unresolved_p0 <ℤ pos (2 ^ 62)
    → IsDraft 7 (all_deductions percent i)
unfolding all_deductions
all_deductions-IsDraft percent i few =
    deduct_fit-IsDraft 6 (omega arith) i _
      (deduct_paths-IsDraft 5 (omega arith) i _
        (deduct_coverage-IsDraft percent 4 i _ (omega arith) (
          deduct_complexity-IsDraft 3 (omega arith) i _ (
            deduct_lines-IsDraft 2 i _ (omega arith) (
              deduct_p1-IsDraft 1 (omega arith) i _
                (deduct_p0-IsDraft 0 (omega arith) i _ empty_draft-IsDraft few)))))
        percent)
      percent
