-- ===== src/Indexer/Split/Stuck.antt =====
-- internal/hosted/indexer/chunk.go: boundedEnd where the first character that does not fit takes
-- several bytes.
use px.Prelude.{
  ℕ, zero, suc, ◌+◌, ◌-◌, ◌/◌, ◌≤◌, ◌<◌, ◌≡◌, refl, subst, sym, true, false, none, arith, ltb,
  Bool-cases, inl, inr, le→leb,
}
use px.Indexer.Bytes.{Bytes, slice, byte_at, rune_start}
use px.Indexer.Split.{
  TokenCounter, ByteUnit, back_up, settle, Search, middle_of, step, bisect, bounded_end, cut_from,
  split_piece,
}

module _ (content : Bytes) (start limit r : ℕ) where
  back_up-eq :
      (m : ℕ)
      → start < r
      → rune_start (byte_at content r) ≡ true
      → r ≤ m
      → m < limit
      → ((i : ℕ) → r < i → i ≤ m → rune_start (byte_at content i) ≡ false)
      → back_up content start limit m ≡ r
  unfolding back_up
  back_up-eq zero after begins h k inside = omega arith
  back_up-eq (suc m) after begins h k inside = elim (Bool-cases (ltb r (suc m))) [
    | inl more ↦ ground (
      arith,
      more,
      inside (suc m),
      back_up-eq m after begins (ground (arith, more)) (omega arith)
          (λ i a b. inside i a (omega arith)),
    )
    | inr here ↦
        let e : suc m ≡ r = ground (arith, here) in
        ground (arith, here, subst (λ n. rune_start (byte_at content n) ≡ true) (sym e) begins)
  ]

module _ (count : TokenCounter) (content : Bytes) (start limit maximum r : ℕ) where
  -- The search stands just after the first byte of a character that begins at `r`, the text up to
  -- `r` fits, and the middle falls into that character.
  pub record IsCaught (s : Search) : Type 0 where
    pub after : start < r
    pub at_rune : rune_start (byte_at content r) ≡ true
    pub fits : count (slice content start r) ≤ maximum
    pub low_inside : s.low ≡ r + 1
    pub unfinished : s.low ≤ s.high
    pub middle_inside : s.low + (s.high - s.low) / 2 < limit
    pub continued :
        (i : ℕ) → r < i → i ≤ s.low + (s.high - s.low) / 2 → rune_start (byte_at content i) ≡ false

  middle-eq : (s : Search) → IsCaught s → middle_of count content start limit maximum s ≡ r
  unfolding settle
  middle-eq s c = ground (
    arith,
    back_up-eq content start limit r (s.low + (s.high - s.low) / 2) c.after c.at_rune (omega arith)
        c.middle_inside c.continued,
  )

  step-caught :
      (s : Search)
      → IsCaught s
      → step count content start limit maximum s ≡ record s { best = r; low = r + 1 }
  unfolding step
  step-caught s c = ground (arith, middle-eq s c)

  again : (s : Search) → IsCaught s → IsCaught (record s { best = r; low = r + 1 })
  again s c =
      let same : r + 1 + (s.high - (r + 1)) / 2 ≡ s.low + (s.high - s.low) / 2 = omega arith in
      record {
        after = c.after;
        at_rune = c.at_rune;
        fits = c.fits;
        low_inside = refl;
        unfinished = omega arith;
        middle_inside = omega arith;
        continued = λ i a b. c.continued i a (omega arith);
      }

  -- A search that is caught never ends: whatever the fuel, it runs out.
  pub bisect-none :
      (fuel : ℕ) (s : Search) → IsCaught s → bisect count content start limit maximum fuel s ≡ none
  unfolding bisect
  bisect-none zero s c = refl
  bisect-none (suc fuel) s c =
      rw (le→leb s.low s.high c.unfinished, step-caught s c)
        (bisect-none fuel (record s { best = r; low = r + 1 }) (again s c))

module _ (count : TokenCounter) (content : Bytes) (start limit maximum : ℕ) where
  -- A character of one byte that fits, and one of several bytes up to the limit.
  pub record IsTrap : Type 0 where
    pub several : start + 2 < limit
    pub second : rune_start (byte_at content (start + 1)) ≡ true
    pub continued : (i : ℕ) → start + 1 < i → i < limit → rune_start (byte_at content i) ≡ false
    pub fits : count (slice content start (start + 1)) ≤ maximum

  abbrev first_round : Search
  first_round = record { low = start + 1; high = limit; best = start }

  first_step :
      IsTrap
      → step count content start limit maximum first_round
        ≡ record { low = start + 1 + 1; high = limit; best = start + 1 }
  unfolding step settle
  first_step t = ground (
    arith,
    t.fits,
    back_up-eq content start limit (start + 1) (start + 1 + (limit - (start + 1)) / 2) (omega arith)
        t.second (omega arith) (omega arith) (λ i a b. t.continued i a (omega arith)),
  )

  first_bisect :
      (fuel : ℕ) → IsTrap → bisect count content start limit maximum fuel first_round ≡ none
  unfolding bisect
  first_bisect zero t = refl
  first_bisect (suc fuel) t =
      rw (le→leb (start + 1) limit (omega arith), first_step t)
        (bisect-none count content start limit maximum (start + 1) fuel
          (record { low = start + 1 + 1; high = limit; best = start + 1 })
          (record {
            after = omega arith;
            at_rune = t.second;
            fits = t.fits;
            low_inside = refl;
            unfinished = omega arith;
            middle_inside = omega arith;
            continued = λ i a b. t.continued i a (omega arith);
          }))

  pub bounded_end-none :
      (fuel : ℕ) → IsTrap → bounded_end count content start limit maximum fuel ≡ none
  unfolding bounded_end
  bounded_end-none fuel t = ground (arith, first_bisect fuel t)

-- A unit of such characters that is over the maximum is never cut: whatever the fuel, it runs out.
pub split_piece-none :
    (count : TokenCounter) (content : Bytes) (maximum : ℕ) (unit : ByteUnit) (fuel : ℕ)
    → IsTrap count content unit.start unit.end maximum
    → maximum < count (slice content unit.start unit.end)
    → split_piece count content maximum fuel unit ≡ none
unfolding split_piece cut_from
split_piece-none count content maximum unit zero t over = ground arith
split_piece-none count content maximum unit (suc fuel) t over =
    ground
      (arith, bounded_end-none count content unit.start unit.end maximum (suc fuel) t, t.several)
