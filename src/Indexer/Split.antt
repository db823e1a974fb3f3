-- ===== src/Indexer/Split.antt =====
-- internal/hosted/indexer/chunk.go: content cut into units at its symbols, and units into pieces. The
-- binary search and the loop that cuts a unit stand on fuel, and answer none when it runs out.
pub mod Ends
pub mod Cuts
pub mod Returns
pub mod Stuck
pub mod Fits
use px.Prelude.{
  ℕ, zero, suc, ◌+◌, ◌-◌, ◌/◌, ◌++◌, String, Bool, not, ◌&&◌, ◌||◌, Option, none, some, List, [],
  ◌∷◌, Result, ok, err, ◌>>=◌, ltb, leb, ◌==◌, if◌then◌else◌, length, map,
}
use px.Prelude.Int.{ℤ, pos, pos_part, ltb_ℤ, leb_ℤ}
use px.Prelude.Sort.{sort_by}
use px.Indexer.Bytes.{Bytes, slice, byte_at, rune_start, rune_size, last_newline}
use Prim.Native.String.{◌++◌ as concat}

pub record ChunkSymbol : Type 0 where
  pub name : String
  pub start_byte : ℤ
  pub end_byte : ℤ

pub record ByteUnit : Type 0 where
  pub start : ℕ
  pub end : ℕ
  pub symbol : String

pub record Piece : Type 0 where
  pub unit : ByteUnit
  pub tokens : ℕ

-- `TokenCounter`: a count is not negative.
abbrev pub TokenCounter : Type 0
TokenCounter = Bytes → ℕ

abbrev pub by_start : ChunkSymbol → ChunkSymbol → Bool
by_start a b = ltb_ℤ a.start_byte b.start_byte

abbrev pub bad_symbol : ℕ → ℕ → ChunkSymbol → Bool
bad_symbol size cursor s =
    ltb_ℤ s.start_byte (pos cursor)
    || ltb_ℤ s.start_byte (pos 0)
    || leb_ℤ s.end_byte s.start_byte
    || ltb_ℤ (pos size) s.end_byte

-- The bytes between two positions that no symbol covers.
abbrev pub gap : ℕ → ℕ → List ByteUnit
gap from to = if ltb from to then record { start = from; end = to; symbol = "" } ∷ [] else []

abbrev pub symbol_unit : ChunkSymbol → ByteUnit
symbol_unit s = record { start = pos_part s.start_byte; end = pos_part s.end_byte; symbol = s.name }

-- The loop over the sorted symbols and the rest of the content. `quote` is `%q`.
unfoldable pub units_from : (String → String) → ℕ → ℕ → List ChunkSymbol → Result (List ByteUnit)
units_from quote size cursor [] = ok (gap cursor size)
units_from quote size cursor (s ∷ rest) =
    let later = units_from quote size (pos_part s.end_byte) rest >>= λ units.
    ok (gap cursor (pos_part s.start_byte) ++ (symbol_unit s ∷ units)) in
    if bad_symbol size cursor s
    then err (concat "invalid or overlapping symbol " (quote s.name))
    else later

abbrev pub whole_if_none : ℕ → List ByteUnit → List ByteUnit
whole_if_none size [] =
    if ltb 0 size then record { start = 0; end = size; symbol = "" } ∷ [] else []
whole_if_none size (u ∷ us) = u ∷ us

unfoldable pub symbol_units : (String → String) → Bytes → List ChunkSymbol → Result (List ByteUnit)
unfolding units_from sort_by
symbol_units quote content symbols =
    units_from quote (length content) 0 (sort_by by_start symbols) >>= λ units.
    ok (whole_if_none (length content) units)

-- `for middle < limit && middle > start && !utf8.RuneStart(content[middle]) { middle-- }`
unfoldable pub back_up : Bytes → ℕ → ℕ → ℕ → ℕ
back_up content start limit zero = zero
back_up content start limit (suc m) =
    let rest = back_up content start limit m in
    if ltb (suc m) limit && ltb start (suc m) && not (rune_start (byte_at content (suc m)))
    then rest
    else suc m

-- `for middle < limit && !utf8.RuneStart(content[middle]) { middle++ }`, with the distance to `limit`
-- as its fuel.
unfoldable pub go_forward : ℕ → Bytes → ℕ → ℕ → ℕ
go_forward zero content limit m = m
go_forward (suc fuel) content limit m =
    let rest = go_forward fuel content limit (m + 1) in
    if ltb m limit && not (rune_start (byte_at content m)) then rest else m

-- The middle, moved to the start of a rune.
unfoldable pub settle : Bytes → ℕ → ℕ → ℕ → ℕ
settle content start limit m =
    let back = back_up content start limit m in
    if back == start then go_forward (limit - (start + 1)) content limit (start + 1) else back

pub record Search : Type 0 where
  pub low : ℕ
  pub high : ℕ
  pub best : ℕ

module _ (count : TokenCounter) (content : Bytes) (start limit maximum : ℕ) where
  -- The middle of one round of the loop.
  abbrev pub middle_of : Search → ℕ
  middle_of s = settle content start limit (s.low + (s.high - s.low) / 2)

  unfoldable pub step : Search → Search
  step s =
      let middle = middle_of s in
      if leb (count (slice content start middle)) maximum
      then record s { best = middle; low = middle + 1 }
      else record s { high = middle - 1 }

  -- `for low <= high`
  unfoldable pub bisect : ℕ → Search → Option ℕ
  bisect zero s = none
  bisect (suc fuel) s =
      let rest = bisect fuel (step s) in if leb s.low s.high then rest else some s.best

  -- After the loop: a rune at least, and preferably the end of a line.
  unfoldable pub choose_end : ℕ → ℕ
  choose_end best =
      if leb best start
      then start + rune_size (slice content start limit)
      else elim (last_newline (slice content start best)) [
        | none ↦ best
        | some newline ↦
            let candidate = start + newline + 1 in
            if leb (maximum / 2) (count (slice content start candidate)) then candidate else best
      ]

  unfoldable pub bounded_end : ℕ → Option ℕ
  bounded_end fuel = elim (bisect fuel (record { low = start + 1; high = limit; best = start })) [
    | none ↦ none
    | some best ↦ some (choose_end best)
  ]

module _ (count : TokenCounter) (content : Bytes) (maximum fuel : ℕ) where
  abbrev pub piece_to : ByteUnit → ℕ → ℕ → Piece
  piece_to unit start end = record {
    unit = record { start = start; end = end; symbol = unit.symbol };
    tokens = count (slice content start end);
  }

  abbrev pub with_piece : Piece → Option (List Piece) → Option (List Piece)
  with_piece p none = none
  with_piece p (some ps) = some (p ∷ ps)

  -- `for start < unit.end`; `fuel` is that of each search.
  unfoldable pub cut_from : ℕ → ByteUnit → ℕ → Option (List Piece)
  cut_from zero unit start = none
  cut_from (suc rounds) unit start =
      let rest : Option (List Piece) =
        elim (bounded_end count content start unit.end maximum fuel) [
          | none ↦ none
          | some end ↦ with_piece (piece_to unit start end) (cut_from rounds unit end)
        ] in
      if ltb start unit.end then rest else some []

  unfoldable pub split_piece : ByteUnit → Option (List Piece)
  split_piece unit =
      let tokens = count (slice content unit.start unit.end) in
      if leb tokens maximum
      then some (record { unit = unit; tokens = tokens } ∷ [])
      else cut_from fuel unit unit.start
