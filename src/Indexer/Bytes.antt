-- ===== src/Indexer/Bytes.antt =====
-- internal/hosted/indexer/chunk.go: what the chunker uses of bytes and of Go's unicode/utf8.
pub mod Slices
use px.Prelude.{
  ℕ, zero, suc, ◌+◌, ◌-◌, Bool, true, false, not, ◌&&◌, ◌||◌, Option, none, some, List, [], ◌∷◌,
  ltb, leb, ◌==◌, if◌then◌else◌, take, drop, length,
}

abbrev pub Bytes : Type 0
Bytes = List ℕ

-- `content[start:end]`
abbrev pub slice : Bytes → ℕ → ℕ → Bytes
slice content start end = take (end - start) (drop start content)

-- `content[i]`; no position out of range is read.
unfoldable pub byte_at : Bytes → ℕ → ℕ
byte_at [] i = 0
byte_at (b ∷ bs) zero = b
byte_at (b ∷ bs) (suc i) = byte_at bs i

-- `utf8.RuneStart`: not a continuation byte.
abbrev pub rune_start : ℕ → Bool
rune_start b = not (leb 0x80 b && ltb b 0xC0)

abbrev between : ℕ → ℕ → ℕ → Bool
between low high b = leb low b && leb b high

-- The second bytes that go with a first byte.
abbrev second_byte : ℕ → ℕ → Bool
second_byte first b =
    if first == 0xE0
    then between 0xA0 0xBF b
    else (if first == 0xED
        then between 0x80 0x9F b
        else (if first == 0xF0
            then between 0x90 0xBF b
            else (if first == 0xF4 then between 0x80 0x8F b else between 0x80 0xBF b)))

-- The size that `utf8.DecodeRune` answers: 1 for an invalid encoding, 0 for no bytes.
unfoldable pub rune_size : Bytes → ℕ
rune_size [] = 0
rune_size (a ∷ []) = 1
rune_size (a ∷ b ∷ []) = if between 0xC2 0xDF a && second_byte a b then 2 else 1
rune_size (a ∷ b ∷ c ∷ []) =
    if between 0xC2 0xDF a && second_byte a b
    then 2
    else (if between 0xE0 0xEF a && second_byte a b && between 0x80 0xBF c then 3 else 1)
rune_size (a ∷ b ∷ c ∷ d ∷ rest) =
    if between 0xC2 0xDF a && second_byte a b
    then 2
    else (if between 0xE0 0xEF a && second_byte a b && between 0x80 0xBF c
        then 3
        else (if between 0xF0 0xF4 a
              && second_byte a b
              && between 0x80 0xBF c
              && between 0x80 0xBF d
            then 4
            else 1))

-- `utf8.Valid`, on fuel: each rune takes a byte at least.
unfoldable pub valid_within : ℕ → Bytes → Bool
valid_within zero [] = true
valid_within zero (b ∷ bs) = false
valid_within (suc fuel) [] = true
valid_within (suc fuel) (b ∷ bs) =
    let rest = valid_within fuel (drop (rune_size (b ∷ bs)) (b ∷ bs)) in
    if ltb b 0x80 || ltb 1 (rune_size (b ∷ bs)) then rest else false

abbrev pub valid_utf8 : Bytes → Bool
valid_utf8 content = valid_within (length content) content

-- `strings.LastIndexByte(s, '\n')`
unfoldable pub last_newline : Bytes → Option ℕ
last_newline [] = none
last_newline (b ∷ bs) = elim (last_newline bs) [
  | some i ↦ some (suc i)
  | none ↦ if b == 10 then some 0 else none
]

-- `strings.Count(s, "\n")`
unfoldable pub count_newlines : Bytes → ℕ
count_newlines [] = 0
count_newlines (b ∷ bs) = (if b == 10 then 1 else 0) + count_newlines bs
