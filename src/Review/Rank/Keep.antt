-- ===== src/Review/Rank/Keep.antt =====
-- internal/hosted/review/rank.go: lemmas on the loop of RankAndCapFindings.
use px.Prelude.{
  ℕ, ◌+◌, ◌≤◌, ◌<◌, ◌≡◌, ◌≢◌, ◌⊎◌, inl, inr, Bool, true, false, List, [], ◌∷◌, ◌++◌, arith, ◌==◌,
  Bool-cases, length, length-append, any_of, All, Some, All-append, Some-append_left,
}
use px.Review.Finding.{Finding}
use px.Review.Rank.{Unicode, same_finding, keep_loop, stronger}

module _ (u : Unicode) where
  -- No later finding of the list repeats an earlier one.
  abbrev pub Apart : List Finding → Type 0
  Apart [] = Unit
  Apart (x ∷ xs) = All (λ y. same_finding u x y ≡ false) xs × Apart xs

  -- `f` is in the list, or repeats one in it that is at least as strong.
  abbrev pub Represented : List Finding → Finding → Type 0
  Represented kept f =
      Some (λ k. (k ≡ f) ⊎ (same_finding u k f ≡ true) × (stronger f k ≡ false)) kept

  -- Why `f` may be left out: it is represented, or the list is full of findings as strong as `f`.
  abbrev pub Answered : ℕ → List Finding → Finding → Type 0
  Answered limit kept f =
      Represented kept f ⊎ (length kept ≡ limit) × All (λ k. stronger f k ≡ false) kept

  abbrev pub repeats : List Finding → Finding → Bool
  repeats kept c = any_of (λ existing. same_finding u existing c) kept

  -- The three ways through one round.
  keep_loop-repeat :
      (limit : ℕ) (kept rest : List Finding) (c : Finding)
      → repeats kept c ≡ true
      → keep_loop u limit kept (c ∷ rest) ≡ keep_loop u limit kept rest
  unfolding keep_loop
  keep_loop-repeat limit kept rest c e = ground arith

  keep_loop-full :
      (limit : ℕ) (kept rest : List Finding) (c : Finding)
      → repeats kept c ≡ false
      → (length (kept ++ c ∷ []) == limit) ≡ true
      → keep_loop u limit kept (c ∷ rest) ≡ kept ++ c ∷ []
  unfolding keep_loop
  keep_loop-full limit kept rest c e f = ground arith

  keep_loop-more :
      (limit : ℕ) (kept rest : List Finding) (c : Finding)
      → repeats kept c ≡ false
      → (length (kept ++ c ∷ []) == limit) ≡ false
      → keep_loop u limit kept (c ∷ rest) ≡ keep_loop u limit (kept ++ c ∷ []) rest
  unfolding keep_loop
  keep_loop-more limit kept rest c e f = ground arith

  -- Induction over the rounds, for a statement about what is kept, what is left and the result.
  pub keep_loop_induction :
      (limit : ℕ) (Q : List Finding → List Finding → List Finding → Type 0)
      → ((kept : List Finding) → Q kept [] kept)
      → ((kept rest out : List Finding) (c : Finding)
          → repeats kept c ≡ true
          → Q kept rest out
          → Q kept (c ∷ rest) out)
      → ((kept rest : List Finding) (c : Finding)
          → repeats kept c ≡ false
          → length kept + 1 ≡ limit
          → Q kept (c ∷ rest) (kept ++ c ∷ []))
      → ((kept rest out : List Finding) (c : Finding)
          → repeats kept c ≡ false
          → length kept + 1 ≢ limit
          → Q (kept ++ c ∷ []) rest out
          → Q kept (c ∷ rest) out)
      → (kept rest : List Finding) → Q kept rest (keep_loop u limit kept rest)
  keep_loop_induction limit Q stop repeat full more kept [] = unfold keep_loop in stop kept
  keep_loop_induction limit Q stop repeat full more kept (c ∷ rest) =
      elim (Bool-cases (repeats kept c)) [
        | inl e ↦
            rw (keep_loop-repeat limit kept rest c e)
              (repeat kept rest _ c e (keep_loop_induction limit Q stop repeat full more kept rest))
        | inr e ↦ elim (Bool-cases (length (kept ++ c ∷ []) == limit)) [
          | inl f ↦
              rw (keep_loop-full limit kept rest c e f)
                (full kept rest c e (ground (arith, length-append kept (c ∷ []))))
          | inr f ↦ rw (keep_loop-more limit kept rest c e f) (
              more kept rest _ c e (ground (arith, length-append kept (c ∷ [])))
                (keep_loop_induction limit Q stop repeat full more (kept ++ c ∷ []) rest))
        ]
      ]

  Apart-append :
      (xs : List Finding) (c : Finding) → Apart xs → repeats xs c ≡ false → Apart (xs ++ c ∷ [])
  unfolding any_of
  Apart-append [] c h e = (tt, tt)
  Apart-append (x ∷ xs) c h e = (
    All-append (λ y. same_finding u x y ≡ false) xs (c ∷ []) h.0 (ground arith, tt),
    Apart-append xs c h.1 (ground arith),
  )

  -- Below the limit the loop stays within it.
  pub keep_loop-length :
      (limit : ℕ) (kept rest : List Finding)
      → length kept < limit
      → length (keep_loop u limit kept rest) ≤ limit
  keep_loop-length limit =
      keep_loop_induction limit (λ kept rest out. length kept < limit → length out ≤ limit)
        (λ kept h. omega arith) (λ kept rest out c e ih h. ih h)
        (λ kept rest c e f h. omega (arith, length-append kept (c ∷ [])))
        (λ kept rest out c e f ih h. ih (omega (arith, length-append kept (c ∷ []))))

  pub keep_loop-Apart :
      (limit : ℕ) (kept rest : List Finding) → Apart kept → Apart (keep_loop u limit kept rest)
  keep_loop-Apart limit =
      keep_loop_induction limit (λ kept rest out. Apart kept → Apart out) (λ kept h. h)
        (λ kept rest out c e ih h. ih h) (λ kept rest c e f h. Apart-append kept c h e)
        (λ kept rest out c e f ih h. ih (Apart-append kept c h e))

  -- What is kept stays kept.
  keep_loop-Some :
      (P : Finding → Type 0) (limit : ℕ) (kept rest : List Finding)
      → Some P kept
      → Some P (keep_loop u limit kept rest)
  keep_loop-Some P limit =
      keep_loop_induction limit (λ kept rest out. Some P kept → Some P out) (λ kept h. h)
        (λ kept rest out c e ih h. ih h) (λ kept rest c e f h. Some-append_left P kept (c ∷ []) h)
        (λ kept rest out c e f ih h. ih (Some-append_left P kept (c ∷ []) h))

  -- Nothing is kept that was not kept or among the rest.
  pub keep_loop-All :
      (P : Finding → Type 0) (limit : ℕ) (kept rest : List Finding)
      → All P kept
      → All P rest
      → All P (keep_loop u limit kept rest)
  keep_loop-All P limit =
      keep_loop_induction limit (λ kept rest out. All P kept → All P rest → All P out)
        (λ kept h k. h) (λ kept rest out c e ih h k. ih h k.1)
        (λ kept rest c e f h k. All-append P kept (c ∷ []) h (k.0, tt))
        (λ kept rest out c e f ih h k. ih (All-append P kept (c ∷ []) h (k.0, tt)) k.1)
