-- ===== src/Indexer/Split/Fits.antt =====
-- internal/hosted/indexer/chunk.go: the tokens of the pieces where each character takes one byte.
use px.Prelude.{
  ℕ, zero, suc, ◌+◌, ◌-◌, ◌≤◌, ◌<◌, ◌≡◌, refl, ap, ◌∙◌, subst, true, some, List, [], ◌∷◌, arith,
  leb, leb→le, length, take, drop, Option-cases, Bool-cases, inl, inr, ◌⊎◌, All,
}
use px.Indexer.Bytes.{Bytes, slice, byte_at, rune_start, rune_size, last_newline}
use px.Indexer.Bytes.Slices.{length-slice, last_newline-lt}
use px.Indexer.Split.{
  TokenCounter, ByteUnit, Piece, Search, middle_of, step, bisect, choose_end, bounded_end, cut_from,
  split_piece,
}
use px.Indexer.Split.Cuts.{cut_from-IsRound, split_piece-cases}
use px.Indexer.Split.Ends.{bisect_bounds}
use px.Indexer.Split.Returns.{IsSingleByte}

-- The tokens of the start of a text are at most those of the text.
abbrev pub IsMonotone : TokenCounter → Bytes → Type 0
IsMonotone count content =
    (start a b : ℕ) → a ≤ b → count (slice content start a) ≤ count (slice content start b)

-- No single byte is over the maximum.
abbrev pub IsFine : TokenCounter → Bytes → ℕ → Type 0
IsFine count content maximum = (i : ℕ) → count (slice content i (i + 1)) ≤ maximum

-- Where the second byte begins a rune, the first is one.
rune_size-one :
    (xs : Bytes)
    → 0 < length xs
    → (1 < length xs → rune_start (byte_at xs 1) ≡ true)
    → rune_size xs ≡ 1
unfolding rune_size byte_at
rune_size-one [] h s = absurd (omega arith)
rune_size-one (a ∷ []) h s = refl
rune_size-one (a ∷ b ∷ []) h s = ground (arith, s)
rune_size-one (a ∷ b ∷ c ∷ []) h s = ground (arith, s)
rune_size-one (a ∷ b ∷ c ∷ d ∷ rest) h s = ground (arith, s)

byte_at-take : (n i : ℕ) (xs : Bytes) → i < n → byte_at (take n xs) i ≡ byte_at xs i
unfolding byte_at
byte_at-take zero i xs h = absurd (omega arith)
byte_at-take (suc n) i [] h = refl
byte_at-take (suc n) zero (x ∷ xs) h = refl
byte_at-take (suc n) (suc i) (x ∷ xs) h = byte_at-take n i xs (omega arith)

byte_at-drop : (n i k : ℕ) (xs : Bytes) → k ≡ n + i → byte_at (drop n xs) i ≡ byte_at xs k
unfolding byte_at
byte_at-drop zero i k xs h = let e : i ≡ k = omega arith in ap (byte_at xs) e
byte_at-drop (suc n) i k [] h = refl
byte_at-drop (suc n) i zero (x ∷ xs) h = absurd (omega arith)
byte_at-drop (suc n) i (suc k) (x ∷ xs) h = byte_at-drop n i k xs (omega arith)

module _ (count : TokenCounter) (content : Bytes) (start limit maximum : ℕ) where
  -- The best end so far is the start, or the text up to it fits.
  abbrev HasFit : ℕ → Type 0
  HasFit best = (best ≡ start) ⊎ (count (slice content start best) ≤ maximum)

  step-HasFit :
      (s : Search) → HasFit s.best → HasFit (step count content start limit maximum s).best
  unfolding step
  step-HasFit s h =
      elim (Bool-cases (
        leb (count (slice content start (middle_of count content start limit maximum s)))
          maximum)) [ inl fits ↦ rw fits (inr (leb→le _ _ fits)) | inr over ↦ rw over h ]

  bisect-HasFit :
      (fuel : ℕ) (s : Search) (best : ℕ)
      → HasFit s.best
      → bisect count content start limit maximum fuel s ≡ some best
      → HasFit best
  unfolding bisect
  bisect-HasFit zero s best h e = absurd (cc)
  bisect-HasFit (suc fuel) s best h e = elim (Bool-cases (leb s.low s.high)) [
    | inl more ↦
        bisect-HasFit fuel (step count content start limit maximum s) best (step-HasFit s h)
          (ground (arith, more))
    | inr done ↦ let same : s.best ≡ best = ground (arith, done) in subst HasFit same h
  ]

  second_begins :
      IsSingleByte content start limit
      → start + 1 < limit
      → rune_start (byte_at (slice content start limit) 1) ≡ true
  second_begins single h =
      ap rune_start (
        byte_at-take (limit - start) 1 (drop start content) (omega arith)
        ∙ byte_at-drop start 1 (start + 1) content refl)
      ∙ single (start + 1) (omega arith) h

  choose_end-fits :
      (best : ℕ)
      → IsMonotone count content
      → IsFine count content maximum
      → IsSingleByte content start limit
      → start < limit
      → limit ≤ length content
      → start ≤ best
      → best ≤ limit
      → HasFit best
      → count (slice content start (choose_end count content start limit maximum best)) ≤ maximum
  unfolding choose_end
  choose_end-fits best mono fine single l w a b h = elim (Bool-cases (leb best start)) [
    | inl none_fits ↦
        let long : length (slice content start limit) ≡ limit - start =
          length-slice content start limit (omega arith) w in
        let size : rune_size (slice content start limit) ≡ 1 =
          rune_size-one (slice content start limit) (omega (arith, long))
            (λ k. second_begins single (omega (arith, long, k))) in
        rw (none_fits, size) (fine start)
    | inr some_fit ↦
        let fits : count (slice content start best) ≤ maximum = elim h [
          | inl e ↦ absurd (ground (arith, some_fit, e))
          | inr f ↦ f
        ] in
        elim (Option-cases (last_newline (slice content start best))) [
          | inl e ↦ ground (arith, some_fit, e, fits)
          | inr (i, e) ↦
              let candidate = start + i + 1 in
              let within : candidate ≤ best = omega (
                arith,
                last_newline-lt (slice content start best) i e,
                length-slice content start best a (omega arith),
              ) in
              let small = mono start candidate best within in
              ground (arith, some_fit, e, fits, small)
        ]
  ]

  bounded_end-fits :
      (fuel end : ℕ)
      → IsMonotone count content
      → IsFine count content maximum
      → IsSingleByte content start limit
      → start < limit
      → limit ≤ length content
      → bounded_end count content start limit maximum fuel ≡ some end
      → count (slice content start end) ≤ maximum
  unfolding bounded_end
  bounded_end-fits fuel end mono fine single l w e =
      let first : Search = record { low = start + 1; high = limit; best = start } in
      elim (Option-cases (bisect count content start limit maximum fuel first)) [
        | inl n ↦ absurd (ground (arith, n))
        | inr (best, f) ↦
            let (a, b) =
              bisect_bounds count content start limit maximum fuel first best (ground arith) f in
            let chosen : choose_end count content start limit maximum best ≡ end =
              ground (arith, f) in
            subst (λ n. count (slice content start n) ≤ maximum) chosen
              (choose_end-fits best mono fine single l w a b
                (bisect-HasFit fuel first best (inl refl) f))
      ]

-- A piece within the maximum.
abbrev pub IsWithin : ℕ → Piece → Type 0
IsWithin maximum p = p.tokens ≤ maximum

module _ (count : TokenCounter) (content : Bytes) (maximum fuel : ℕ)
    (mono : IsMonotone count content) (fine : IsFine count content maximum)
    (single : IsSingleByte content 0 (length content)) where
  cut_from-IsWithin :
      (rounds : ℕ) (unit : ByteUnit) (start : ℕ) (pieces : List Piece)
      → unit.end ≤ length content
      → cut_from count content maximum fuel rounds unit start ≡ some pieces
      → All (IsWithin maximum) pieces
  unfolding cut_from
  cut_from-IsWithin zero unit start pieces w e = cc
  cut_from-IsWithin (suc rounds) unit start pieces w e =
      elim (cut_from-IsRound count content maximum fuel rounds unit start pieces e) [
        | inl (done, same) ↦ subst (All (IsWithin maximum)) same tt
        | inr r ↦
            let fits =
              bounded_end-fits count content start unit.end maximum fuel r.end mono fine
                (λ i p q. single i (omega arith) (omega arith)) r.before w r.bounded in
            subst (All (IsWithin maximum)) r.made
              (fits, cut_from-IsWithin rounds unit r.end r.rest w r.onward)
      ]

  pub split_piece-IsWithin :
      (unit : ByteUnit) (pieces : List Piece)
      → unit.end ≤ length content
      → split_piece count content maximum fuel unit ≡ some pieces
      → All (IsWithin maximum) pieces
  split_piece-IsWithin unit pieces w e =
      elim (split_piece-cases count content maximum fuel unit pieces e) [
        | inl (fits, same) ↦ subst (All (IsWithin maximum)) same (fits, tt)
        | inr cut ↦ cut_from-IsWithin fuel unit unit.start pieces w cut
      ]
