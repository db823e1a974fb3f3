-- ===== src/Indexer/Chunk/Chunked.antt =====
-- internal/hosted/indexer/chunk.go: the whole of Chunk.
use px.Prelude.{
  ℕ, ◌≤◌, ◌<◌, ◌≡◌, refl, ◌∙◌, String, Bool, true, none, some, List, [], arith, ltb, length,
  Option-cases, Bool-cases, inl, inr, All, Result, ok, err,
}
use px.Prelude.Sort.{sort_by}
use px.Indexer.Bytes.{Bytes, slice, valid_utf8}
use px.Indexer.Bytes.Slices.{slice_all}
use px.Indexer.Split.{ChunkSymbol, ByteUnit, Piece, symbol_units, units_from}
use px.Indexer.Split.Returns.{IsSingleByte, joined-Covers, Covers}
use px.Indexer.Split.Stuck.{IsTrap, split_piece-none}
use px.Indexer.Chunk.{Chunk, Chunker, chunk, chunk_units, pack, split_all, or_default, counter_of}
use px.Indexer.Chunk.Whole.{symbol_units-cover, split_all-Covers, split_all_returns, UnitsCover}
use px.Indexer.Chunk.Packed.{contents, pack-contents}
use px.Indexer.Chunk.Bounds.{IsSubadditive, split_all-IsCounted, IsBounded, pack-IsBounded}

module _ (separates : Bytes → Bool) (quote : String → String) (fuel : ℕ) (c : Chunker)
    (path : String) (content : Bytes) (symbols : List ChunkSymbol) where
  abbrev minimum : ℕ
  minimum = or_default c.min_tokens 200

  abbrev maximum : ℕ
  maximum = or_default c.max_tokens 800

  -- The parts of a run that makes chunks.
  record IsRun (chunks : List Chunk) : Type 0 where
    units : List ByteUnit
    pieces : List Piece
    united : UnitsCover 0 (length content) units
    split : split_all (counter_of separates c) content maximum fuel units ≡ some pieces
    covered : Covers 0 (length content) pieces
    packed :
        pack (counter_of separates c) path content minimum maximum (length pieces) pieces
        ≡ ok chunks

  chunk_units-IsRun :
      (chunks : List Chunk) (r : Result (List ByteUnit))
      → ((us : List ByteUnit) → r ≡ ok us → UnitsCover 0 (length content) us)
      → chunk_units (counter_of separates c) minimum maximum fuel path content r ≡ some (ok chunks)
      → IsRun chunks
  unfolding chunk_units
  chunk_units-IsRun chunks (err m) h e = absurd (cc)
  chunk_units-IsRun chunks (ok us) h e =
      elim (Option-cases (split_all (counter_of separates c) content maximum fuel us)) [
        | inl n ↦ absurd (ground (arith, n))
        | inr (ps, f) ↦ record {
          units = us;
          pieces = ps;
          united = h us refl;
          split = f;
          covered =
              split_all-Covers (counter_of separates c) content maximum fuel 0 (length content) us
                ps (h us refl) (omega arith) f;
          packed = ground (arith, f);
        }
      ]

  chunk_units_returns :
      (r : Result (List ByteUnit))
      → ((us : List ByteUnit) → r ≡ ok us → UnitsCover 0 (length content) us)
      → IsSingleByte content 0 (length content)
      → length content < fuel
      → (made : Result (List Chunk)) × (chunk_units
            (counter_of separates c)
            minimum
            maximum
            fuel
            path
            content
            r
          ≡ some made)
  unfolding chunk_units
  chunk_units_returns (err m) h single f = (err m, refl)
  chunk_units_returns (ok us) h single f =
      let (ps, e) =
        split_all_returns (counter_of separates c) content maximum fuel 0 (length content) us single
          (h us refl) (omega arith) f in
      (pack (counter_of separates c) path content minimum maximum (length ps) ps, ground (arith, e))

  chunk-IsRun :
      (chunks : List Chunk)
      → chunk separates quote fuel c path content symbols ≡ some (ok chunks)
      → IsRun chunks
  unfolding chunk
  chunk-IsRun chunks e =
      chunk_units-IsRun chunks (symbol_units quote content symbols)
        (symbol_units-cover quote content symbols) (ground arith)

  -- Whenever Chunk makes chunks, their contents, one after another, are the content of the file.
  pub chunk-contents :
      (chunks : List Chunk)
      → chunk separates quote fuel c path content symbols ≡ some (ok chunks)
      → contents chunks ≡ content
  chunk-contents chunks e =
      let r = chunk-IsRun chunks e in
      pack-contents (counter_of separates c) path content minimum maximum (length r.pieces) 0
        (length content) r.pieces chunks r.covered r.packed
      ∙ joined-Covers content 0 (length content) r.pieces r.covered
      ∙ slice_all content

  -- Where a text has at most the tokens of its two parts together, and the empty text none, each
  -- chunk that Chunk makes states the tokens of its content, and they are no more than the
  -- maximum.
  pub chunk-IsBounded :
      (chunks : List Chunk)
      → IsSubadditive (counter_of separates c)
      → chunk separates quote fuel c path content symbols ≡ some (ok chunks)
      → All (IsBounded (counter_of separates c) maximum) chunks
  chunk-IsBounded chunks sub e =
      let r = chunk-IsRun chunks e in
      pack-IsBounded (counter_of separates c) sub path content minimum maximum (length r.pieces) 0
        (length content) r.pieces chunks r.covered
        (split_all-IsCounted (counter_of separates c) content maximum fuel r.units r.pieces r.split)
        r.packed

  -- For a content whose bytes after the first all begin a character, that is, where each character
  -- takes one byte, and fuel above its length, Chunk returns chunks or an error, whatever the
  -- counter of tokens and the symbols.
  pub chunk_returns :
      IsSingleByte content 0 (length content)
      → length content < fuel
      → (r : Result (List Chunk)) × (chunk separates quote fuel c path content symbols ≡ some r)
  unfolding chunk
  chunk_returns single f =
      let (r, e) =
        chunk_units_returns (symbol_units quote content symbols)
          (symbol_units-cover quote content symbols) single f in
      elim (Bool-cases (valid_utf8 content)) [
        | inr bad ↦ (err "chunk input must be UTF-8 text", ground (arith, bad))
        | inl good ↦ elim (Bool-cases (ltb maximum minimum)) [
          | inl over ↦ (err "minimum chunk size exceeds maximum", ground (arith, good, over))
          | inr fine ↦ (r, ground (arith, good, fine, e))
        ]
      ]

module _ (separates : Bytes → Bool) (quote : String → String) (c : Chunker) (path : String)
    (content : Bytes) where
  -- Without symbols and with the minimum up to the maximum, on a valid text of one character of
  -- one byte and one of several bytes, where the first is within the maximum of tokens and the
  -- whole is over it, Chunk does not return: whatever the fuel, it runs out.
  pub chunk-none :
      (fuel : ℕ)
      → valid_utf8 content ≡ true
      → or_default c.min_tokens 200 ≤ or_default c.max_tokens 800
      → IsTrap (counter_of separates c) content 0 (length content) (or_default c.max_tokens 800)
      → or_default c.max_tokens 800 < counter_of separates c (slice content 0 (length content))
      → chunk separates quote fuel c path content [] ≡ none
  unfolding chunk chunk_units symbol_units split_all units_from sort_by
  chunk-none fuel valid fine trap over =
      let unit : ByteUnit = record { start = 0; end = length content; symbol = "" } in
      let stuck =
        split_piece-none (counter_of separates c) content (or_default c.max_tokens 800) unit fuel
          trap over in
      ground (arith, valid, stuck, trap.several)
