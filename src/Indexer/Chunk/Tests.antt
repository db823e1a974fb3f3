-- ===== src/Indexer/Chunk/Tests.antt =====
-- internal/hosted/indexer/chunk.go: the chunker on small files.
use px.Prelude.{
  ℕ, zero, suc, ◌<◌, ◌≡◌, refl, String, Bool, true, false, none, some, List, [], ◌∷◌, arith, ◌==◌,
  length, take, drop, ◌-◌, ◌≤◌, ◌+◌, All, Result, ok, length-append,
}
use px.Prelude.Int.{pos}
use px.Prelude.Text.{join}
use px.Indexer.Bytes.{
  Bytes, rune_start, byte_at, rune_size, valid_within, last_newline, count_newlines,
}
use px.Indexer.Split.{
  ChunkSymbol, symbol_units, cut_from, bounded_end, bisect, step, settle, back_up, go_forward,
  choose_end,
}
use px.Indexer.Split.Returns.{IsSingleByte}
use px.Indexer.Split.Stuck.{IsTrap}
use px.Indexer.Split.Fits.{IsMonotone, IsFine}
use px.Indexer.Chunk.Total.{chunk_succeeds}
use px.Indexer.Chunk.{
  Chunk, Chunker, chunk, counter_of, take_pieces, chunk_of, symbol_names, count_words,
}
use px.Indexer.Chunk.Packed.{contents}
use px.Indexer.Chunk.Bounds.{IsSubadditive, IsBounded}
use px.Indexer.Chunk.Chunked.{chunk-contents, chunk-IsBounded, chunk_returns, chunk-none}

abbrev blank_rune : Bytes → Bool
blank_rune [] = false
blank_rune (b ∷ bs) = b == 32

abbrev unquoted : String → String
unquoted s = s

-- At most one word to a chunk.
abbrev one_word : Chunker
one_word = record { counter = none; min_tokens = pos 1; max_tokens = pos 1 }

-- At most two bytes to a chunk.
abbrev two_bytes : Chunker
two_bytes = record { counter = some length; min_tokens = pos 1; max_tokens = pos 2 }

-- "ab c"
abbrev words : Bytes
words = 97 ∷ 98 ∷ 32 ∷ 99 ∷ []

-- "x 世"
abbrev wide : Bytes
wide = 120 ∷ 32 ∷ 0xE4 ∷ 0xB8 ∷ 0x96 ∷ []

-- "ab" and "c" on two lines
abbrev lines : Bytes
lines = 97 ∷ 98 ∷ 10 ∷ 99 ∷ []

abbrev whole_symbol : ChunkSymbol
whole_symbol = record { name = "f"; start_byte = pos 1; end_byte = pos 3 }

abbrev word_chunks : List Chunk
word_chunks =
    record {
      path = "a";
      symbol = "";
      start_line = 1;
      end_line = 1;
      content = 97 ∷ 98 ∷ 32 ∷ [];
      token_count = 1;
    }
    ∷ record {
      path = "a";
      symbol = "";
      start_line = 1;
      end_line = 1;
      content = 99 ∷ [];
      token_count = 1;
    }
    ∷ []

abbrev byte_chunks : List Chunk
byte_chunks =
    record {
      path = "a";
      symbol = "";
      start_line = 1;
      end_line = 1;
      content = 97 ∷ [];
      token_count = 1;
    }
    ∷ record {
      path = "a";
      symbol = "f";
      start_line = 1;
      end_line = 1;
      content = 98 ∷ 10 ∷ [];
      token_count = 2;
    }
    ∷ record {
      path = "a";
      symbol = "";
      start_line = 2;
      end_line = 2;
      content = 99 ∷ [];
      token_count = 1;
    }
    ∷ []

-- A text is cut at a word; at the borders of a symbol; and, with the program's own counter, a text of
-- two words of which the second is a character of three bytes is not cut.
chunk_runs :
    (chunk blank_rune unquoted 9 one_word "a" words [] ≡ some (ok word_chunks))
    × (chunk blank_rune unquoted 9 two_bytes "a" lines (whole_symbol ∷ []) ≡ some (ok byte_chunks))
    × (chunk blank_rune unquoted 40 one_word "a" wide [] ≡ none)
unfolding chunk symbol_units cut_from bisect step settle choose_end bounded_end last_newline
    count_newlines symbol_names count_words rune_size valid_within back_up go_forward byte_at
    chunk_of take_pieces join
chunk_runs = (refl, refl, refl)

length-IsSubadditive : IsSubadditive (counter_of blank_rune two_bytes)
length-IsSubadditive = (refl, λ xs ys. omega (arith, length-append xs ys))

chunk-contents_example : contents word_chunks ≡ words
chunk-contents_example =
    chunk-contents blank_rune unquoted 9 one_word "a" words [] word_chunks chunk_runs.0

chunk-IsBounded_example : All (IsBounded (counter_of blank_rune two_bytes) 2) byte_chunks
chunk-IsBounded_example =
    chunk-IsBounded blank_rune unquoted 9 two_bytes "a" lines (whole_symbol ∷ []) byte_chunks
      length-IsSubadditive chunk_runs.1

words-IsSingleByte : IsSingleByte words 0 4
unfolding byte_at
words-IsSingleByte zero h k = ground arith
words-IsSingleByte (suc zero) h k = refl
words-IsSingleByte (suc (suc zero)) h k = refl
words-IsSingleByte (suc (suc (suc zero))) h k = refl
words-IsSingleByte (suc (suc (suc (suc i)))) h k = absurd (omega arith)

chunk_returns_example :
    (r : Result (List Chunk)) × (chunk blank_rune unquoted 9 one_word "a" words [] ≡ some r)
chunk_returns_example =
    chunk_returns blank_rune unquoted 9 one_word "a" words [] words-IsSingleByte (omega arith)

-- "x世"
abbrev trap : Bytes
trap = 120 ∷ 0xE4 ∷ 0xB8 ∷ 0x96 ∷ []

trap-continued : (i : ℕ) → 1 < i → i < 4 → rune_start (byte_at trap i) ≡ false
unfolding byte_at
trap-continued zero h k = ground arith
trap-continued (suc zero) h k = ground arith
trap-continued (suc (suc zero)) h k = refl
trap-continued (suc (suc (suc zero))) h k = refl
trap-continued (suc (suc (suc (suc i)))) h k = absurd (omega arith)

trap-IsTrap : IsTrap (counter_of blank_rune two_bytes) trap 0 4 2
unfolding byte_at
trap-IsTrap = record {
  several = omega arith;
  second = refl;
  continued = trap-continued;
  fits = omega arith;
}

valid_trap : valid_within 4 trap ≡ true
unfolding valid_within rune_size
valid_trap = refl

chunk-none_example : chunk blank_rune unquoted 1000 two_bytes "a" trap [] ≡ none
chunk-none_example =
    chunk-none blank_rune unquoted two_bytes "a" trap 1000 valid_trap (omega arith) trap-IsTrap
      (omega arith)

take-length-le : (n : ℕ) (xs : Bytes) → length (take n xs) ≤ n
take-length-le zero xs = omega arith
take-length-le (suc n) [] = omega arith
take-length-le (suc n) (x ∷ xs) = omega (arith, take-length-le n xs)

take-length_mono : (n m : ℕ) (xs : Bytes) → n ≤ m → length (take n xs) ≤ length (take m xs)
take-length_mono zero m xs h = omega arith
take-length_mono (suc n) zero xs h = absurd (omega arith)
take-length_mono (suc n) (suc m) [] h = omega arith
take-length_mono (suc n) (suc m) (x ∷ xs) h = omega (arith, take-length_mono n m xs)

bytes-IsMonotone : IsMonotone (counter_of blank_rune two_bytes) words
bytes-IsMonotone start a b h =
    take-length_mono (a - start) (b - start) (drop start words) (omega arith)

bytes-IsFine : IsFine (counter_of blank_rune two_bytes) words 2
bytes-IsFine i = omega (arith, take-length-le (i + 1 - i) (drop i words))

words-units : symbol_units unquoted words [] ≡ ok (record { start = 0; end = 4; symbol = "" } ∷ [])
unfolding symbol_units
words-units = refl

words-valid : valid_within 4 words ≡ true
unfolding valid_within rune_size
words-valid = refl

chunk_succeeds_example :
    (chunks : List Chunk) × (chunk blank_rune unquoted 5 two_bytes "a" words [] ≡ some (ok chunks))
    × (contents chunks ≡ words)
chunk_succeeds_example =
    chunk_succeeds blank_rune unquoted 5 two_bytes "a" words []
      (record { start = 0; end = 4; symbol = "" } ∷ []) words-valid (omega arith) words-units
      words-IsSingleByte bytes-IsMonotone bytes-IsFine (omega arith)
