-- ===== src/Indexer/Chunk.antt =====
-- internal/hosted/indexer/chunk.go: the chunks of a file, packed from the pieces of its units.
pub mod Whole
pub mod Packed
pub mod Bounds
pub mod Chunked
pub mod Total
mod Tests
use px.Prelude.{
  ℕ, zero, suc, ◌+◌, ◌-◌, ◌++◌, String, Bool, true, false, not, ◌&&◌, Option, none, some, List, [],
  ◌∷◌, Result, ok, err, ltb, leb, ◌==◌, if◌then◌else◌, length, str_eq,
}
use px.Prelude.Int.{ℤ, pos, pos_part, leb_ℤ}
use px.Prelude.Text.{join}
use px.Indexer.Bytes.{Bytes, slice, rune_size, valid_utf8, count_newlines}
use px.Indexer.Split.{TokenCounter, ChunkSymbol, ByteUnit, Piece, symbol_units, split_piece}
use Prim.Native.String.{◌++◌ as concat}

pub record Chunk : Type 0 where
  pub path : String
  pub symbol : String
  pub start_line : ℕ
  pub end_line : ℕ
  pub content : Bytes
  pub token_count : ℕ

-- What `EmbeddingText` puts before the content.
unfoldable pub embedding_header : Chunk → String
embedding_header c =
    let header =
      if str_eq c.symbol ""
      then concat "path: " c.path
      else concat (concat "path: " c.path) (concat "\nsymbol: " c.symbol) in
    concat header "\n\n"

pub record Chunker : Type 0 where
  pub counter : Option TokenCounter
  pub min_tokens : ℤ
  pub max_tokens : ℤ

-- `approximateCounter.Count`: the runs of runes that do not separate words, on fuel; a rune takes a
-- byte at least. `separates` is `unicode.IsSpace(r) || unicode.IsPunct(r)` on the bytes of a rune.
unfoldable pub count_words : (Bytes → Bool) → ℕ → Bool → Bytes → ℕ
count_words separates zero inside text = 0
count_words separates (suc fuel) inside [] = 0
count_words separates (suc fuel) inside (b ∷ bs) =
    let size = rune_size (b ∷ bs) in
    let gap = separates (slice (b ∷ bs) 0 size) in
    let rest = count_words separates fuel (not gap) (slice (b ∷ bs) size (length (b ∷ bs))) in
    (if not gap && not inside then 1 else 0) + rest

abbrev pub approximate_count : (Bytes → Bool) → TokenCounter
approximate_count separates text = count_words separates (length text) false text

-- `joinedSymbols`: the names, less the empty and those that repeat the last.
unfoldable pub symbol_names : String → List Piece → List String
symbol_names last [] = []
symbol_names last (p ∷ ps) =
    let name = p.unit.symbol in
    let skipped = symbol_names last ps in
    let kept = name ∷ symbol_names name ps in
    if str_eq name "" then skipped else if str_eq name last then skipped else kept

abbrev pub joined_symbols : List Piece → String
joined_symbols ps = join ", " (symbol_names "" ps)

abbrev pub line_at : Bytes → ℕ → ℕ
line_at content offset = 1 + count_newlines (slice content 0 offset)

-- The inner loop: the pieces of one chunk, and those that are left.
unfoldable pub take_pieces : ℕ → ℕ → ℕ → List Piece → List Piece × List Piece
take_pieces minimum maximum tokens [] = ([], [])
take_pieces minimum maximum tokens (p ∷ ps) =
    let sum = tokens + p.tokens in
    let more = take_pieces minimum maximum sum ps in
    if leb sum maximum
    then (if leb minimum sum then (p ∷ [], ps) else (p ∷ more.0, more.1))
    else ([], p ∷ ps)

-- `pieces[i-1].end`
abbrev pub last_end : ℕ → List Piece → ℕ
last_end end [] = end
last_end end (p ∷ ps) = last_end p.unit.end ps

abbrev pub with_chunk : Chunk → Result (List Chunk) → Result (List Chunk)
with_chunk c (ok cs) = ok (c ∷ cs)
with_chunk c (err e) = err e

module _ (count : TokenCounter) (path : String) (content : Bytes) where
  unfoldable pub chunk_of : Piece → List Piece → Chunk
  chunk_of first rest =
      let start = first.unit.start in
      let end = last_end first.unit.end rest in
      let text = slice content start end in
      record {
        path = path;
        symbol = joined_symbols (first ∷ rest);
        start_line = line_at content start;
        end_line = line_at content (if leb start (end - 1) then end - 1 else start);
        content = text;
        token_count = count text;
      }

module _ (count : TokenCounter) (path : String) (content : Bytes) (minimum maximum : ℕ) where
  -- The outer loop. Each round takes a piece at least, so that there are no more rounds than pieces.
  unfoldable pub pack : ℕ → List Piece → Result (List Chunk)
  pack rounds [] = ok []
  pack zero (p ∷ ps) = err "unable to produce a bounded chunk"
  pack (suc rounds) (p ∷ ps) =
      let taken = take_pieces minimum maximum 0 (p ∷ ps) in
      elim taken.0 [
        | [] ↦ err "unable to produce a bounded chunk"
        | q ∷ qs ↦ with_chunk (chunk_of count path content q qs) (pack rounds taken.1)
      ]

-- The pieces of every unit, in order; none where a search does not end.
unfoldable pub split_all : TokenCounter → Bytes → ℕ → ℕ → List ByteUnit → Option (List Piece)
unfolding split_piece
split_all count content maximum fuel [] = some []
split_all count content maximum fuel (u ∷ us) = elim (split_piece count content maximum fuel u) [
  | none ↦ none
  | some ps ↦ elim (split_all count content maximum fuel us) [
    | none ↦ none
    | some qs ↦ some (ps ++ qs)
  ]
]

abbrev pub or_default : ℤ → ℕ → ℕ
or_default n d = if leb_ℤ n (pos 0) then d else pos_part n

abbrev pub counter_of : (Bytes → Bool) → Chunker → TokenCounter
counter_of separates c = elim c.counter [ none ↦ approximate_count separates | some count ↦ count ]

-- The loops over the units.
unfoldable pub chunk_units :
    TokenCounter
    → ℕ
    → ℕ
    → ℕ
    → String
    → Bytes
    → Result (List ByteUnit)
    → Option (Result (List Chunk))
unfolding split_all pack
chunk_units count minimum maximum fuel path content (err e) = some (err e)
chunk_units count minimum maximum fuel path content (ok units) =
    elim (split_all count content maximum fuel units) [
      | none ↦ none
      | some pieces ↦ some (pack count path content minimum maximum (length pieces) pieces)
    ]

-- `Chunker.Chunk`; none where it does not return within the fuel of its searches.
unfoldable pub chunk :
    (Bytes → Bool)
    → (String → String)
    → ℕ
    → Chunker
    → String
    → Bytes
    → List ChunkSymbol
    → Option (Result (List Chunk))
unfolding chunk_units
chunk separates quote fuel c path content symbols =
    let minimum = or_default c.min_tokens 200 in
    let maximum = or_default c.max_tokens 800 in
    if not (valid_utf8 content)
    then some (err "chunk input must be UTF-8 text")
    else if ltb maximum minimum
    then some (err "minimum chunk size exceeds maximum")
    else chunk_units (counter_of separates c) minimum maximum fuel path content
        (symbol_units quote content symbols)
