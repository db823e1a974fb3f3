-- ===== src/Indexer/Split/Returns.antt =====
-- internal/hosted/indexer/chunk.go: the loops of boundedEnd and splitPiece, and what their pieces cover.
use px.Prelude.{
  ℕ, zero, suc, ◌+◌, ◌-◌, ◌/◌, ◌≤◌, ◌<◌, ◌≡◌, refl, sym, subst, true, some, List, [], ◌∷◌, ◌++◌,
  arith, ltb, leb, length, Bool-cases, inl, inr,
}
use px.Indexer.Bytes.{Bytes, slice, byte_at, rune_start}
use px.Indexer.Bytes.Slices.{slice_split, slice_none}
use px.Indexer.Split.{
  TokenCounter, ByteUnit, Piece, back_up, settle, Search, step, bisect, choose_end, bounded_end,
  piece_to, cut_from, split_piece,
}
use px.Indexer.Split.Cuts.{cut_from-IsRound, split_piece-cases}
use px.Indexer.Split.Ends.{IsSearch, step-IsSearch, bounded_end_bounds}

-- Each position after the first begins a rune.
abbrev pub IsSingleByte : Bytes → ℕ → ℕ → Type 0
IsSingleByte content start limit =
    (i : ℕ) → start < i → i < limit → rune_start (byte_at content i) ≡ true

module _ (count : TokenCounter) (content : Bytes) (start limit maximum : ℕ) where
  settle-eq :
      (m : ℕ)
      → IsSingleByte content start limit
      → start < m
      → m ≤ limit
      → settle content start limit m ≡ m
  unfolding settle back_up
  settle-eq zero single h k = elim h [ ]
  settle-eq (suc m) single h k = ground (arith, single (suc m))

  step_falls :
      (s : Search)
      → IsSingleByte content start limit
      → IsSearch count content start limit maximum s
      → s.low ≤ s.high
      → (step count content start limit maximum s).high + s.low + 1
        ≤ (step count content start limit maximum s).low + s.high
  unfolding step
  step_falls s single w h = ground (arith, settle-eq (s.low + (s.high - s.low) / 2) single)

  bisect_returns :
      (fuel : ℕ) (s : Search)
      → IsSingleByte content start limit
      → IsSearch count content start limit maximum s
      → 0 < fuel
      → s.high + 1 < s.low + fuel
      → (best : ℕ) × (bisect count content start limit maximum fuel s ≡ some best)
  unfolding bisect
  bisect_returns zero s single w p h = absurd (omega arith)
  bisect_returns (suc fuel) s single w p h = elim (Bool-cases (leb s.low s.high)) [
    | inl more ↦
        let within : s.low ≤ s.high = ground (arith, more) in
        let falls = step_falls s single w within in
        let (best, e) =
          bisect_returns fuel (step count content start limit maximum s) single
            (step-IsSearch count content start limit maximum s w within) (omega arith)
            (omega arith) in
        (best, ground (arith, more, e))
    | inr done ↦ (s.best, ground (arith, done))
  ]

  bounded_end_returns :
      (fuel : ℕ)
      → IsSingleByte content start limit
      → start < limit
      → limit < start + fuel
      → (end : ℕ) × (bounded_end count content start limit maximum fuel ≡ some end)
  unfolding bounded_end
  bounded_end_returns fuel single h k =
      let (best, e) =
        bisect_returns fuel (record { low = start + 1; high = limit; best = start }) single
          (ground arith) (ground arith) (ground arith) in
      (choose_end count content start limit maximum best, ground (arith, e))

-- Pieces that follow one another from one position to another, none of them empty.
abbrev pub Covers : ℕ → ℕ → List Piece → Type 0
Covers from to [] = from ≡ to
Covers from to (p ∷ ps) = (p.unit.start ≡ from) × (from < p.unit.end) × Covers p.unit.end to ps

pub Covers-append :
    (from middle to : ℕ) (ps qs : List Piece)
    → Covers from middle ps
    → Covers middle to qs
    → Covers from to (ps ++ qs)
Covers-append from middle to [] qs h k = subst (λ n. Covers n to qs) (sym h) k
Covers-append from middle to (p ∷ ps) qs h k =
    (h.0, h.1, Covers-append p.unit.end middle to ps qs h.2 k)

module _ (count : TokenCounter) (content : Bytes) (maximum fuel : ℕ) where
  cut_from_returns :
      (rounds : ℕ) (unit : ByteUnit) (start : ℕ)
      → ((i : ℕ) → unit.start < i → i < unit.end → rune_start (byte_at content i) ≡ true)
      → unit.start ≤ start
      → start ≤ unit.end
      → unit.end ≤ length content
      → unit.end < start + fuel
      → unit.end < start + rounds
      → (pieces : List Piece) × (cut_from count content maximum fuel rounds unit start
          ≡ some pieces)
  unfolding cut_from
  cut_from_returns zero unit start single h k w f r = absurd (omega arith)
  cut_from_returns (suc rounds) unit start single h k w f r =
      elim (Bool-cases (ltb start unit.end)) [
        | inr done ↦ ([], rw done)
        | inl more ↦
            let lt : start < unit.end = ground (arith, more) in
            let (end, e) =
              bounded_end_returns count content start unit.end maximum fuel
                (λ i a b. single i (omega arith) b) lt f in
            let (after, within) =
              bounded_end_bounds count content start unit.end maximum fuel end lt w e in
            let (pieces, c) =
              cut_from_returns rounds unit end single (omega arith) within w (omega arith)
                (omega arith) in
            (piece_to count content maximum fuel unit start end ∷ pieces, rw (more, e, c))
      ]

  -- A unit whose characters are one byte each is cut with the fuel of its bytes and one round more.
  pub split_piece_returns :
      (unit : ByteUnit)
      → IsSingleByte content unit.start unit.end
      → unit.start ≤ unit.end
      → unit.end ≤ length content
      → unit.end < unit.start + fuel
      → (pieces : List Piece) × (split_piece count content maximum fuel unit ≡ some pieces)
  unfolding split_piece
  split_piece_returns unit single h w f =
      elim (Bool-cases (leb (count (slice content unit.start unit.end)) maximum)) [
        | inl fits ↦ (
          record { unit = unit; tokens = count (slice content unit.start unit.end) } ∷ [],
          rw fits,
        )
        | inr over ↦
            let (pieces, e) = cut_from_returns fuel unit unit.start single (omega arith) h w f f in
            (pieces, rw (over, e))
      ]

  cut_from-Covers :
      (rounds : ℕ) (unit : ByteUnit) (start : ℕ) (pieces : List Piece)
      → start ≤ unit.end
      → unit.end ≤ length content
      → cut_from count content maximum fuel rounds unit start ≡ some pieces
      → Covers start unit.end pieces
  unfolding cut_from
  cut_from-Covers zero unit start pieces h w e = cc
  cut_from-Covers (suc rounds) unit start pieces h w e =
      elim (cut_from-IsRound count content maximum fuel rounds unit start pieces e) [
        | inl (done, same) ↦
            let at_end : start ≡ unit.end = omega arith in subst (Covers start unit.end) same at_end
        | inr r ↦
            let (after, within) =
              bounded_end_bounds count content start unit.end maximum fuel r.end r.before w
                r.bounded in
            subst (Covers start unit.end) r.made
              (refl, after, cut_from-Covers rounds unit r.end r.rest within w r.onward)
      ]

  -- The pieces of a unit follow one another over the whole of it.
  pub split_piece-Covers :
      (unit : ByteUnit) (pieces : List Piece)
      → unit.start < unit.end
      → unit.end ≤ length content
      → split_piece count content maximum fuel unit ≡ some pieces
      → Covers unit.start unit.end pieces
  split_piece-Covers unit pieces h w e =
      elim (split_piece-cases count content maximum fuel unit pieces e) [
        | inl (fits, same) ↦ subst (Covers unit.start unit.end) same (refl, h, refl)
        | inr cut ↦ cut_from-Covers fuel unit unit.start pieces (omega arith) w cut
      ]

-- The bytes of the pieces, in order.
unfoldable pub joined : Bytes → List Piece → Bytes
joined content [] = []
joined content (p ∷ ps) = slice content p.unit.start p.unit.end ++ joined content ps

pub Covers-le : (from to : ℕ) (ps : List Piece) → Covers from to ps → from ≤ to
Covers-le from to [] h = omega arith
Covers-le from to (p ∷ ps) h = omega (arith, Covers-le p.unit.end to ps h.2)

pub joined-Covers :
    (content : Bytes) (from to : ℕ) (ps : List Piece)
    → Covers from to ps
    → joined content ps ≡ slice content from to
unfolding joined
joined-Covers content from to [] h =
    subst (λ n. [] ≡ slice content from n) h (sym (slice_none content from))
joined-Covers content from to (p ∷ ps) h =
    rw (h.0, joined-Covers content p.unit.end to ps h.2)
      (slice_split content from p.unit.end to (omega arith) (Covers-le p.unit.end to ps h.2))
