-- ===== src/Indexer/Bytes/Slices.antt =====
-- internal/hosted/indexer/chunk.go: lengths and joins of slices, and the sizes of runes.
use px.Prelude.{
  ℕ, zero, suc, ◌+◌, ◌-◌, ◌≤◌, ◌<◌, ◌≡◌, refl, ap, ◌∙◌, sym, some, [], ◌∷◌, ◌++◌, arith, length,
  take, drop, Option-cases, inl, inr,
}
use px.Indexer.Bytes.{Bytes, slice, rune_size, last_newline}

length-drop : (n : ℕ) (xs : Bytes) → length (drop n xs) ≡ length xs - n
length-drop zero xs = omega arith
length-drop (suc n) [] = omega arith
length-drop (suc n) (x ∷ xs) = omega (arith, length-drop n xs)

length-take : (n : ℕ) (xs : Bytes) → n ≤ length xs → length (take n xs) ≡ n
length-take zero xs h = refl
length-take (suc n) [] h = omega arith
length-take (suc n) (x ∷ xs) h = omega (arith, length-take n xs)

pub length-slice :
    (content : Bytes) (a b : ℕ) → a ≤ b → b ≤ length content → length (slice content a b) ≡ b - a
length-slice content a b h k =
    length-take (b - a) (drop a content) (omega (arith, length-drop a content))

take-nil : (m : ℕ) → take {A = ℕ} m [] ≡ []
take-nil zero = refl
take-nil (suc m) = refl

take-take : (n m k : ℕ) (xs : Bytes) → k ≡ n + m → take n xs ++ take m (drop n xs) ≡ take k xs
take-take zero m k xs h = let e : m ≡ k = omega arith in ap (λ (j : ℕ). take j xs) e
take-take (suc n) m zero xs h = absurd (omega arith)
take-take (suc n) m (suc k) [] h = take-nil m
take-take (suc n) m (suc k) (x ∷ xs) h =
    ap (λ (ys : Bytes). x ∷ ys) (take-take n m k xs (omega arith))

drop-drop : (n m k : ℕ) (xs : Bytes) → k ≡ n + m → drop m (drop n xs) ≡ drop k xs
drop-drop zero m k xs h = let e : m ≡ k = omega arith in ap (λ (j : ℕ). drop j xs) e
drop-drop (suc n) m zero xs h = absurd (omega arith)
drop-drop (suc n) zero (suc k) [] h = refl
drop-drop (suc n) (suc m) (suc k) [] h = refl
drop-drop (suc n) m (suc k) (x ∷ xs) h = drop-drop n m k xs (omega arith)

pub slice_split :
    (content : Bytes) (a b c : ℕ)
    → a ≤ b
    → b ≤ c
    → slice content a b ++ slice content b c ≡ slice content a c
slice_split content a b c h k =
    ap (λ (ys : Bytes). slice content a b ++ take (c - b) ys)
      (sym (drop-drop a (b - a) b content (omega arith)))
    ∙ take-take (b - a) (c - b) (c - a) (drop a content) (omega arith)

take_all : (xs : Bytes) (n : ℕ) → n ≡ length xs → take n xs ≡ xs
take_all [] n h = take-nil n
take_all (x ∷ xs) zero h = absurd (omega arith)
take_all (x ∷ xs) (suc n) h = ap (λ (ys : Bytes). x ∷ ys) (take_all xs n (omega arith))

pub slice_all : (content : Bytes) → slice content 0 (length content) ≡ content
slice_all content = take_all content (length content - 0) (omega arith)

pub slice_none : (content : Bytes) (a : ℕ) → slice content a a ≡ []
slice_none content a = let e : a - a ≡ 0 = omega arith in ap (λ (n : ℕ). take n (drop a content)) e

-- A rune takes a byte at least, and no more than there are.
pub rune_size_bounds :
    (xs : Bytes) → 0 < length xs → (1 ≤ rune_size xs) × (rune_size xs ≤ length xs)
unfolding rune_size
rune_size_bounds [] h = omega arith
rune_size_bounds (a ∷ []) h = ground arith
rune_size_bounds (a ∷ b ∷ []) h = ground arith
rune_size_bounds (a ∷ b ∷ c ∷ []) h = ground arith
rune_size_bounds (a ∷ b ∷ c ∷ d ∷ rest) h = ground arith

pub last_newline-lt : (xs : Bytes) (i : ℕ) → last_newline xs ≡ some i → i < length xs
unfolding last_newline
last_newline-lt [] i h = cc
last_newline-lt (x ∷ xs) i h = elim (Option-cases (last_newline xs)) [
  | inl e ↦ ground (arith, e)
  | inr (j, e) ↦ ground (arith, e, last_newline-lt xs j e)
]
