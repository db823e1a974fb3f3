-- ===== src/Review/Rank/Delivery.antt =====
-- internal/hosted/review/rank.go: the delivered list against the findings passed in.
use px.Prelude.{
  ℕ, ◌+◌, ◌≤◌, ◌<◌, ◌≡◌, refl, inl, inr, Bool, true, false, List, [], ◌∷◌, ◌++◌, arith, Bool-cases,
  length, length-append, any_of, All, All-append, All-map, Some-append_right, Some-append_left,
}
use px.Prelude.Int.{ℤ}
use px.Prelude.Sort.{
  Sorted, sort_by, sort_by-Sorted, All-sort_by, All-of-sort_by, Sorted-append_last,
}
use px.Review.Finding.{Finding}
use px.Review.Rank.{Unicode, same_finding, keep_loop, stronger, cap_of, rank_and_cap}
use px.Review.Rank.Order.{stronger-IsOrder}
use px.Review.Rank.Keep.{
  Apart, Represented, Answered, repeats, keep_loop_induction, keep_loop-length, keep_loop-Apart,
  keep_loop-All,
}

-- Every finding of `rest` comes after every finding of `kept`.
abbrev Ahead : List Finding → List Finding → Type 0
Ahead kept rest = All (λ r. All (λ k. stronger r k ≡ false) kept) rest

Ahead-append :
    (kept rest : List Finding) (c : Finding)
    → Ahead kept rest
    → All (λ r. stronger r c ≡ false) rest
    → Ahead (kept ++ c ∷ []) rest
Ahead-append kept [] c h k = tt
Ahead-append kept (r ∷ rest) c h k = (
  All-append (λ x. stronger r x ≡ false) kept (c ∷ []) h.0 (k.0, tt),
  Ahead-append kept rest c h.1 k.1,
)

Ahead-nil : (rest : List Finding) → Ahead [] rest
Ahead-nil [] = tt
Ahead-nil (r ∷ rest) = (tt, Ahead-nil rest)

cap_of-pos : (max_inline_comments : ℤ) → 0 < cap_of max_inline_comments
cap_of-pos m = ground arith

module _ (u : Unicode) where
  Represented-of_repeat :
      (kept : List Finding) (c : Finding)
      → repeats u kept c ≡ true
      → All (λ k. stronger c k ≡ false) kept
      → Represented u kept c
  unfolding any_of
  Represented-of_repeat [] c e h = cc
  Represented-of_repeat (x ∷ xs) c e h = elim (Bool-cases (same_finding u x c)) [
    | inl s ↦ inl (inr (s, h.0))
    | inr n ↦ inr (Represented-of_repeat xs c (ground arith) h.1)
  ]

  Represented-last : (kept : List Finding) (c : Finding) → Represented u (kept ++ c ∷ []) c
  Represented-last kept c = Some-append_right _ kept (c ∷ []) (inl (inl refl))

  keep_loop-Sorted :
      (limit : ℕ) (kept rest : List Finding)
      → Sorted stronger kept
      → Sorted stronger rest
      → Ahead kept rest
      → Sorted stronger (keep_loop u limit kept rest)
  keep_loop-Sorted limit =
      keep_loop_induction u limit
        (λ kept rest out.
          Sorted stronger kept → Sorted stronger rest → Ahead kept rest → Sorted stronger out)
        (λ kept h k a. h) (λ kept rest out c e ih h k a. ih h k.1 a.1)
        (λ kept rest c e f h k a. Sorted-append_last stronger kept c h a.0)
        (λ kept rest out c e f ih h k a.
          ih (Sorted-append_last stronger kept c h a.0) k.1 (Ahead-append kept rest c a.1 k.0))

  -- The statement of the induction: what represents goes on to represent, and all that is left is
  -- answered.
  abbrev Answers : ℕ → List Finding → List Finding → List Finding → Type 0
  Answers limit kept rest out =
      Sorted stronger rest
      → Ahead kept rest
      → ((f : Finding) → Represented u kept f → Represented u out f)
        × All (Answered u limit out) rest

  Answers-full :
      (limit : ℕ) (kept rest : List Finding) (c : Finding)
      → length kept + 1 ≡ limit
      → Answers limit kept (c ∷ rest) (kept ++ c ∷ [])
  Answers-full limit kept rest c e k a = (
    λ f r. Some-append_left _ kept (c ∷ []) r,
    (
      inl (Represented-last kept c),
      All-map (λ r h. inr (omega (arith, length-append kept (c ∷ [])), h)) rest
          (Ahead-append kept rest c a.1 k.0),
    ),
  )

  keep_loop-Answers :
      (limit : ℕ) (kept rest : List Finding) → Answers limit kept rest (keep_loop u limit kept rest)
  keep_loop-Answers limit =
      keep_loop_induction u limit (Answers limit) (λ kept k a. (λ f r. r, tt))
        (λ kept rest out c e ih k a.
          let (through, all) = ih k.1 a.1 in
          (through, (inl (through c (Represented-of_repeat kept c e a.0)), all)))
        (λ kept rest c e f. Answers-full limit kept rest c f)
        (λ kept rest out c e f ih k a.
          let (through, all) = ih k.1 (Ahead-append kept rest c a.1 k.0) in
          (
            λ g r. through g (Some-append_left _ kept (c ∷ []) r),
            (inl (through c (Represented-last kept c)), all),
          ))

  -- The delivered findings are no more than the cap, none repeats an earlier one, and they stand in
  -- the order of `stronger`; each of them is one of the findings passed in.
  pub rank_and_cap_delivers :
      (findings : List Finding) (max_inline_comments : ℤ)
      → let out = rank_and_cap u findings max_inline_comments in
        (length out ≤ cap_of max_inline_comments)
        × Apart u out
        × Sorted stronger out
        × ((P : Finding → Bool) → All (λ f. P f ≡ true) findings → All (λ f. P f ≡ true) out)
  unfolding rank_and_cap
  rank_and_cap_delivers findings m =
      let ranked = sort_by stronger findings in
      let limit = cap_of m in
      (
        keep_loop-length u limit [] ranked (cap_of-pos m),
        keep_loop-Apart u limit [] ranked tt,
        keep_loop-Sorted limit [] ranked tt (sort_by-Sorted stronger stronger-IsOrder findings)
            (Ahead-nil ranked),
        λ P h.
            keep_loop-All u (λ f. P f ≡ true) limit [] ranked tt
              (All-sort_by stronger _ findings h),
      )

  -- Every finding passed in is delivered, or repeats a delivered one that is at least as strong, or
  -- the delivered list is full of findings that are at least as strong.
  pub rank_and_cap-Answered :
      (findings : List Finding) (max_inline_comments : ℤ)
      → All
          (Answered u (cap_of max_inline_comments) (rank_and_cap u findings max_inline_comments))
          findings
  unfolding rank_and_cap
  rank_and_cap-Answered findings m =
      All-of-sort_by stronger _ findings
        (keep_loop-Answers (cap_of m) [] (sort_by stronger findings)
          (sort_by-Sorted stronger stronger-IsOrder findings)
          (Ahead-nil (sort_by stronger findings))).1
