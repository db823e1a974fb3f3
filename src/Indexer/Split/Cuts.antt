-- ===== src/Indexer/Split/Cuts.antt =====
-- internal/hosted/indexer/chunk.go: what a run of splitPiece did, by its result.
use px.Prelude.{
  ℕ, suc, ◌≤◌, ◌<◌, ◌≡◌, some, List, [], ◌∷◌, arith, ltb, leb, Bool-cases, Option-cases, inl, inr,
  ◌⊎◌,
}
use px.Indexer.Bytes.{Bytes, slice}
use px.Indexer.Split.{TokenCounter, ByteUnit, Piece, bounded_end, piece_to, cut_from, split_piece}

module _ (count : TokenCounter) (content : Bytes) (maximum fuel : ℕ) where
  -- One round of the loop that cuts a unit: a piece, and the cuts of the rest.
  pub record IsRound (rounds : ℕ) (unit : ByteUnit) (start : ℕ) (pieces : List Piece) : Type 0 where
    pub end : ℕ
    pub rest : List Piece
    pub before : start < unit.end
    pub bounded : bounded_end count content start unit.end maximum fuel ≡ some end
    pub onward : cut_from count content maximum fuel rounds unit end ≡ some rest
    pub made : piece_to count content maximum fuel unit start end ∷ rest ≡ pieces

  pub cut_from-IsRound :
      (rounds : ℕ) (unit : ByteUnit) (start : ℕ) (pieces : List Piece)
      → cut_from count content maximum fuel (suc rounds) unit start ≡ some pieces
      → ((unit.end ≤ start) × ([] ≡ pieces)) ⊎ IsRound rounds unit start pieces
  unfolding cut_from
  cut_from-IsRound rounds unit start pieces e = elim (Bool-cases (ltb start unit.end)) [
    | inr done ↦ inl (ground (arith, done))
    | inl more ↦ elim (Option-cases (bounded_end count content start unit.end maximum fuel)) [
      | inl n ↦ absurd (ground (arith, more, n))
      | inr (end, b) ↦ elim (Option-cases (cut_from count content maximum fuel rounds unit end)) [
        | inl n ↦ absurd (ground (arith, more, b, n))
        | inr (rest, c) ↦ inr (record {
          end = end;
          rest = rest;
          before = ground (arith, more);
          bounded = b;
          onward = c;
          made = ground (arith, more, b, c);
        })
      ]
    ]
  ]

  -- The unit as one piece.
  abbrev pub uncut : ByteUnit → Piece
  uncut unit = record { unit = unit; tokens = count (slice content unit.start unit.end) }

  pub split_piece-cases :
      (unit : ByteUnit) (pieces : List Piece)
      → split_piece count content maximum fuel unit ≡ some pieces
      → ((count (slice content unit.start unit.end) ≤ maximum) × (uncut unit ∷ [] ≡ pieces))
        ⊎ (cut_from count content maximum fuel fuel unit unit.start ≡ some pieces)
  unfolding split_piece
  split_piece-cases unit pieces e =
      elim (Bool-cases (leb (count (slice content unit.start unit.end)) maximum)) [
        | inl fits ↦ inl (ground (arith, fits))
        | inr over ↦ inr (ground (arith, over))
      ]
