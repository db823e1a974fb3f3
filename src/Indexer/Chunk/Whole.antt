-- ===== src/Indexer/Chunk/Whole.antt =====
-- internal/hosted/indexer/chunk.go: units, pieces and chunks against the content that they cut.
use px.Prelude.{
  ℕ, ◌≤◌, ◌<◌, ◌≡◌, refl, subst, String, false, some, List, [], ◌∷◌, ◌++◌, arith, ltb, length,
  Option-cases, Result-cases, Bool-cases, inl, inr, append-nil, ok,
}
use px.Prelude.Int.{pos_part}
use px.Prelude.Sort.{sort_by}
use px.Indexer.Bytes.{Bytes}
use px.Indexer.Split.{
  TokenCounter, ChunkSymbol, ByteUnit, Piece, gap, bad_symbol, by_start, symbol_unit, units_from,
  whole_if_none, symbol_units, split_piece,
}
use px.Indexer.Split.Returns.{
  IsSingleByte, Covers, Covers-append, split_piece_returns, split_piece-Covers,
}
use px.Indexer.Chunk.{split_all}

-- Units that follow one another from one position to another, none of them empty.
abbrev pub UnitsCover : ℕ → ℕ → List ByteUnit → Type 0
UnitsCover from to [] = from ≡ to
UnitsCover from to (u ∷ us) = (u.start ≡ from) × (from < u.end) × UnitsCover u.end to us

gap-cover :
    (from middle to : ℕ) (us : List ByteUnit)
    → from ≤ middle
    → UnitsCover middle to us
    → UnitsCover from to (gap from middle ++ us)
gap-cover from middle to us h k = elim (Bool-cases (ltb from middle)) [
  | inl e ↦ rw e (refl, ground (arith, e), k)
  | inr e ↦
      let same : middle ≡ from = ground (arith, e) in rw e (subst (λ n. UnitsCover n to us) same k)
]

good_symbol :
    (size cursor : ℕ) (s : ChunkSymbol)
    → bad_symbol size cursor s ≡ false
    → (cursor ≤ pos_part s.start_byte)
      × (pos_part s.start_byte < pos_part s.end_byte)
      × (pos_part s.end_byte ≤ size)
good_symbol size cursor s h = ground arith

units_from-cover :
    (quote : String → String) (size cursor : ℕ) (symbols : List ChunkSymbol) (units : List ByteUnit)
    → cursor ≤ size
    → units_from quote size cursor symbols ≡ ok units
    → UnitsCover cursor size units
unfolding units_from
units_from-cover quote size cursor [] units h e =
    let same : gap cursor size ++ [] ≡ units = ground (arith, append-nil (gap cursor size)) in
    subst (UnitsCover cursor size) same (gap-cover cursor size size [] h refl)
units_from-cover quote size cursor (s ∷ rest) units h e =
    elim (Bool-cases (bad_symbol size cursor s)) [
      | inl bad ↦ absurd (ground (arith, bad))
      | inr good ↦ elim (Result-cases (units_from quote size (pos_part s.end_byte) rest)) [
        | inr (m, f) ↦ absurd (ground (arith, good, f))
        | inl (later, f) ↦
            let within : (cursor ≤ pos_part s.start_byte)
                × (pos_part s.start_byte < pos_part s.end_byte)
                × (pos_part s.end_byte ≤ size) =
              good_symbol size cursor s good in
            let same : gap cursor (pos_part s.start_byte) ++ (symbol_unit s ∷ later) ≡ units =
              ground (arith, good, f) in
            subst (UnitsCover cursor size) same (
              gap-cover cursor (pos_part s.start_byte) size (symbol_unit s ∷ later) within.0 (
                refl,
                within.1,
                units_from-cover quote size (pos_part s.end_byte) rest later within.2 f,
              ))
      ]
    ]

whole_if_none-cover :
    (size : ℕ) (units : List ByteUnit)
    → UnitsCover 0 size units
    → UnitsCover 0 size (whole_if_none size units)
whole_if_none-cover size [] h = ground arith
whole_if_none-cover size (u ∷ us) h = h

pub symbol_units-cover :
    (quote : String → String) (content : Bytes) (symbols : List ChunkSymbol) (units : List ByteUnit)
    → symbol_units quote content symbols ≡ ok units
    → UnitsCover 0 (length content) units
unfolding symbol_units
symbol_units-cover quote content symbols units e =
    elim (Result-cases (units_from quote (length content) 0 (sort_by by_start symbols))) [
      | inr (m, f) ↦ absurd (ground (arith, f))
      | inl (us, f) ↦
          let same : whole_if_none (length content) us ≡ units = ground (arith, f) in
          subst (UnitsCover 0 (length content)) same (
            whole_if_none-cover (length content) us (
              units_from-cover quote (length content) 0 (sort_by by_start symbols) us (omega arith)
                f))
    ]

pub UnitsCover-le : (from to : ℕ) (us : List ByteUnit) → UnitsCover from to us → from ≤ to
UnitsCover-le from to [] h = omega arith
UnitsCover-le from to (u ∷ us) h = omega (arith, UnitsCover-le u.end to us h.2)

module _ (count : TokenCounter) (content : Bytes) (maximum fuel : ℕ) where
  -- The pieces of the first unit, and those of the others.
  pub record IsSplit (u : ByteUnit) (us : List ByteUnit) (pieces : List Piece) : Type 0 where
    pub first : List Piece
    pub others : List Piece
    pub cut : split_piece count content maximum fuel u ≡ some first
    pub onward : split_all count content maximum fuel us ≡ some others
    pub made : first ++ others ≡ pieces

  pub split_all-IsSplit :
      (u : ByteUnit) (us : List ByteUnit) (pieces : List Piece)
      → split_all count content maximum fuel (u ∷ us) ≡ some pieces
      → IsSplit u us pieces
  unfolding split_all
  split_all-IsSplit u us pieces e = elim (Option-cases (split_piece count content maximum fuel u)) [
    | inl n ↦ absurd (ground (arith, n))
    | inr (ps, f) ↦ elim (Option-cases (split_all count content maximum fuel us)) [
      | inl n ↦ absurd (ground (arith, f, n))
      | inr (qs, g) ↦ record {
        first = ps;
        others = qs;
        cut = f;
        onward = g;
        made = ground (arith, f, g);
      }
    ]
  ]

  pub split_all-Covers :
      (from to : ℕ) (units : List ByteUnit) (pieces : List Piece)
      → UnitsCover from to units
      → to ≤ length content
      → split_all count content maximum fuel units ≡ some pieces
      → Covers from to pieces
  unfolding split_all
  split_all-Covers from to [] pieces h w e =
      let same : [] ≡ pieces = ground arith in subst (Covers from to) same h
  split_all-Covers from to (u ∷ us) pieces h w e =
      let r = split_all-IsSplit u us pieces e in
      let within : u.end ≤ to = UnitsCover-le u.end to us h.2 in
      let here : Covers u.start u.end r.first =
        split_piece-Covers count content maximum fuel u r.first (ground (arith, h.0, h.1))
          (omega arith) r.cut in
      subst (Covers from to) r.made (
        Covers-append from u.end to r.first r.others (subst (λ n. Covers n u.end r.first) h.0 here)
          (split_all-Covers u.end to us r.others h.2 w r.onward))

  pub split_all_returns :
      (from to : ℕ) (units : List ByteUnit)
      → IsSingleByte content 0 (length content)
      → UnitsCover from to units
      → to ≤ length content
      → length content < fuel
      → (pieces : List Piece) × (split_all count content maximum fuel units ≡ some pieces)
  unfolding split_all
  split_all_returns from to [] single h w f = ([], refl)
  split_all_returns from to (u ∷ us) single h w f =
      let within : u.end ≤ to = UnitsCover-le u.end to us h.2 in
      let (ps, e) =
        split_piece_returns count content maximum fuel u
          (λ i a b. single i (omega arith) (omega arith)) (ground (arith, h.0, h.1)) (omega arith)
          (omega arith) in
      let (qs, g) = split_all_returns u.end to us single h.2 w f in (ps ++ qs, ground (arith, e, g))
