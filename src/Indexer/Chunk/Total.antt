-- ===== src/Indexer/Chunk/Total.antt =====
-- internal/hosted/indexer/chunk.go: Chunk makes chunks where each character takes one byte.
use px.Prelude.{
  ℕ, zero, suc, ◌+◌, ◌≤◌, ◌<◌, ◌≡◌, ◌≢◌, refl, ap, sym, ◌∙◌, subst, String, Bool, true, some, List,
  [], ◌∷◌, ◌++◌, arith, length, inl, inr, All, All-append, ok, length-append,
}
use px.Indexer.Bytes.{Bytes, valid_utf8}
use px.Indexer.Split.{TokenCounter, ChunkSymbol, ByteUnit, Piece, symbol_units}
use px.Indexer.Split.Returns.{IsSingleByte}
use px.Indexer.Split.Fits.{IsMonotone, IsFine, IsWithin, split_piece-IsWithin}
use px.Indexer.Chunk.{
  Chunk, Chunker, take_pieces, chunk_of, pack, split_all, chunk_units, chunk, or_default,
  counter_of,
}
use px.Indexer.Chunk.Whole.{
  split_all-IsSplit, symbol_units-cover, split_all_returns, UnitsCover, UnitsCover-le,
}
use px.Indexer.Chunk.Packed.{contents, take_pieces-append, List-cases}
use px.Indexer.Chunk.Chunked.{chunk-contents}

module _ (count : TokenCounter) (content : Bytes) (maximum fuel : ℕ)
    (mono : IsMonotone count content) (fine : IsFine count content maximum)
    (single : IsSingleByte content 0 (length content)) where
  split_all-IsWithin :
      (from to : ℕ) (units : List ByteUnit) (pieces : List Piece)
      → UnitsCover from to units
      → to ≤ length content
      → split_all count content maximum fuel units ≡ some pieces
      → All (IsWithin maximum) pieces
  unfolding split_all
  split_all-IsWithin from to [] pieces h w e =
      let same : [] ≡ pieces = ground arith in subst (All (IsWithin maximum)) same tt
  split_all-IsWithin from to (u ∷ us) pieces h w e =
      let r = split_all-IsSplit count content maximum fuel u us pieces e in
      let within : u.end ≤ length content = omega (arith, UnitsCover-le u.end to us h.2) in
      subst (All (IsWithin maximum)) r.made (
        All-append (IsWithin maximum) r.first r.others
          (split_piece-IsWithin count content maximum fuel mono fine single u r.first within r.cut)
          (split_all-IsWithin u.end to us r.others h.2 w r.onward))

module _ (count : TokenCounter) (path : String) (content : Bytes) (minimum maximum : ℕ) where
  All-rest : (xs ys : List Piece) → All (IsWithin maximum) (xs ++ ys) → All (IsWithin maximum) ys
  All-rest [] ys h = h
  All-rest (x ∷ xs) ys h = All-rest xs ys h.1

  takes_one :
      (p : Piece) (ps : List Piece)
      → p.tokens ≤ maximum
      → (take_pieces minimum maximum 0 (p ∷ ps)).0 ≢ []
  unfolding take_pieces
  takes_one p ps h e = absurd (ground arith)

  -- Pieces within the maximum are packed, in no more rounds than there are pieces.
  pack_succeeds :
      (rounds : ℕ) (ps : List Piece)
      → length ps ≤ rounds
      → All (IsWithin maximum) ps
      → (chunks : List Chunk) × (pack count path content minimum maximum rounds ps ≡ ok chunks)
  unfolding pack
  pack_succeeds rounds [] l h = ([], refl)
  pack_succeeds zero (p ∷ ps) l h = absurd (omega arith)
  pack_succeeds (suc rounds) (p ∷ ps) l h =
      let taken = take_pieces minimum maximum 0 (p ∷ ps) in
      let parted = take_pieces-append minimum maximum 0 (p ∷ ps) in
      elim (List-cases taken.0) [
        | inl none_taken ↦ absurd (takes_one p ps h.0 none_taken)
        | inr (q, qs, some_taken) ↦
            let sizes : length taken.0 + length taken.1 ≡ length (p ∷ ps) =
              sym (length-append taken.0 taken.1) ∙ ap length parted in
            let one : length taken.0 ≡ suc (length qs) = ap length some_taken in
            let left = All-rest taken.0 taken.1 (subst (All (IsWithin maximum)) (sym parted) h) in
            let (later, e) = pack_succeeds rounds taken.1 (omega arith) left in
            (chunk_of count path content q qs ∷ later, ground (arith, some_taken, e))
      ]

module _ (separates : Bytes → Bool) (quote : String → String) (fuel : ℕ) (c : Chunker)
    (path : String) (content : Bytes) (symbols : List ChunkSymbol) (units : List ByteUnit) where
  -- On a valid text whose bytes after the first all begin a character, with the minimum up to the
  -- maximum, symbols that make units, a counter for which the start of a piece of the text has no
  -- more tokens than the piece and no single byte is over the maximum, and fuel above the length
  -- of the text, Chunk makes chunks, and their contents, one after another, are the text.
  pub chunk_succeeds :
      valid_utf8 content ≡ true
      → or_default c.min_tokens 200 ≤ or_default c.max_tokens 800
      → symbol_units quote content symbols ≡ ok units
      → IsSingleByte content 0 (length content)
      → IsMonotone (counter_of separates c) content
      → IsFine (counter_of separates c) content (or_default c.max_tokens 800)
      → length content < fuel
      → (chunks : List Chunk) × (chunk separates quote fuel c path content symbols
          ≡ some (ok chunks))
        × (contents chunks ≡ content)
  unfolding chunk chunk_units
  chunk_succeeds valid range united single mono fine f =
      let count = counter_of separates c in
      let maximum = or_default c.max_tokens 800 in
      let cover = symbol_units-cover quote content symbols units united in
      let (pieces, e) =
        split_all_returns count content maximum fuel 0 (length content) units single cover
          (omega arith) f in
      let within =
        split_all-IsWithin count content maximum fuel mono fine single 0 (length content) units
          pieces cover (omega arith) e in
      let (chunks, made) =
        pack_succeeds count path content (or_default c.min_tokens 200) maximum (length pieces)
          pieces (omega arith) within in
      let run : chunk separates quote fuel c path content symbols ≡ some (ok chunks) =
        ground (arith, valid, range, united, e, made) in
      (chunks, run, chunk-contents separates quote fuel c path content symbols chunks run)
