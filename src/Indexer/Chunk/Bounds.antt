-- ===== src/Indexer/Chunk/Bounds.antt =====
-- internal/hosted/indexer/chunk.go: the tokens of pieces and chunks against the maximum.
use px.Prelude.{
  ℕ, zero, suc, ◌+◌, ◌≤◌, ◌≡◌, refl, ap, sym, subst, String, some, List, [], ◌∷◌, ◌++◌, arith, inl,
  inr, All, All-append, ok,
}
use px.Indexer.Bytes.{Bytes, slice}
use px.Indexer.Split.{TokenCounter, ByteUnit, Piece, cut_from, split_piece}
use px.Indexer.Split.Cuts.{cut_from-IsRound, split_piece-cases}
use px.Indexer.Split.Returns.{Covers, joined}
use px.Indexer.Chunk.{Chunk, take_pieces, last_end, chunk_of, pack, split_all}
use px.Indexer.Chunk.Whole.{split_all-IsSplit}
use px.Indexer.Chunk.Packed.{Covers-prefix, pack-IsRound, chunk_of-content}

-- A text has at most the tokens of its two parts.
abbrev pub IsSubadditive : TokenCounter → Type 0
IsSubadditive count = (count [] ≡ 0) × ((xs ys : Bytes) → count (xs ++ ys) ≤ count xs + count ys)

module _ (count : TokenCounter) (content : Bytes) where
  -- The tokens of a piece are those of its bytes.
  abbrev pub IsCounted : Piece → Type 0
  IsCounted p = p.tokens ≡ count (slice content p.unit.start p.unit.end)

  cut_from-IsCounted :
      (maximum fuel rounds : ℕ) (unit : ByteUnit) (start : ℕ) (pieces : List Piece)
      → cut_from count content maximum fuel rounds unit start ≡ some pieces
      → All IsCounted pieces
  unfolding cut_from
  cut_from-IsCounted maximum fuel zero unit start pieces e = cc
  cut_from-IsCounted maximum fuel (suc rounds) unit start pieces e =
      elim (cut_from-IsRound count content maximum fuel rounds unit start pieces e) [
        | inl (done, same) ↦ subst (All IsCounted) same tt
        | inr r ↦
            subst (All IsCounted) r.made
              (refl, cut_from-IsCounted maximum fuel rounds unit r.end r.rest r.onward)
      ]

  split_piece-IsCounted :
      (maximum fuel : ℕ) (unit : ByteUnit) (pieces : List Piece)
      → split_piece count content maximum fuel unit ≡ some pieces
      → All IsCounted pieces
  split_piece-IsCounted maximum fuel unit pieces e =
      elim (split_piece-cases count content maximum fuel unit pieces e) [
        | inl (fits, same) ↦ subst (All IsCounted) same (refl, tt)
        | inr cut ↦ cut_from-IsCounted maximum fuel fuel unit unit.start pieces cut
      ]

  pub split_all-IsCounted :
      (maximum fuel : ℕ) (units : List ByteUnit) (pieces : List Piece)
      → split_all count content maximum fuel units ≡ some pieces
      → All IsCounted pieces
  unfolding split_all
  split_all-IsCounted maximum fuel [] pieces e =
      let same : [] ≡ pieces = ground arith in subst (All IsCounted) same tt
  split_all-IsCounted maximum fuel (u ∷ us) pieces e =
      let r = split_all-IsSplit count content maximum fuel u us pieces e in
      subst (All IsCounted) r.made (
        All-append IsCounted r.first r.others (split_piece-IsCounted maximum fuel u r.first r.cut)
          (split_all-IsCounted maximum fuel us r.others r.onward))

abbrev pub sum_tokens : List Piece → ℕ
sum_tokens [] = 0
sum_tokens (p ∷ ps) = p.tokens + sum_tokens ps

take_pieces-sum :
    (minimum maximum tokens : ℕ) (ps : List Piece)
    → tokens ≤ maximum
    → tokens + sum_tokens (take_pieces minimum maximum tokens ps).0 ≤ maximum
unfolding take_pieces
take_pieces-sum minimum maximum tokens [] h = omega arith
take_pieces-sum minimum maximum tokens (p ∷ ps) h =
    ground (arith, take_pieces-sum minimum maximum (tokens + p.tokens) ps)

module _ (count : TokenCounter) (sub : IsSubadditive count) (content : Bytes) where
  count-joined :
      (ps : List Piece)
      → All (IsCounted count content) ps
      → count (joined content ps) ≤ sum_tokens ps
  unfolding joined
  count-joined [] h = omega (arith, sub.0)
  count-joined (p ∷ ps) h = omega (
    arith,
    sub.1 (slice content p.unit.start p.unit.end) (joined content ps),
    count-joined ps h.1,
  )

All-prefix : (P : Piece → Type 0) (xs ys : List Piece) → All P (xs ++ ys) → All P xs × All P ys
All-prefix P [] ys h = (tt, h)
All-prefix P (x ∷ xs) ys h = let (a, b) = All-prefix P xs ys h.1 in ((h.0, a), b)

-- A chunk's tokens are those of its content, and no more than the maximum.
abbrev pub IsBounded : TokenCounter → ℕ → Chunk → Type 0
IsBounded count maximum c = (c.token_count ≤ maximum) × (c.token_count ≡ count c.content)

module _ (count : TokenCounter) (sub : IsSubadditive count) (path : String) (content : Bytes)
    (minimum maximum : ℕ) where
  pub pack-IsBounded :
      (rounds from to : ℕ) (ps : List Piece) (chunks : List Chunk)
      → Covers from to ps
      → All (IsCounted count content) ps
      → pack count path content minimum maximum rounds ps ≡ ok chunks
      → All (IsBounded count maximum) chunks
  unfolding pack chunk_of
  pack-IsBounded rounds from to [] chunks h k e =
      let same : [] ≡ chunks = ground arith in subst (All (IsBounded count maximum)) same tt
  pack-IsBounded zero from to (p ∷ ps) chunks h k e = cc
  pack-IsBounded (suc rounds) from to (p ∷ ps) chunks h k e =
      let r = pack-IsRound count path content minimum maximum rounds p ps chunks e in
      let all = r.first ∷ r.others in
      let (front, back) =
        Covers-prefix from to all r.rest (subst (Covers from to) (sym r.parted) h) in
      let (counted, more) =
        All-prefix (IsCounted count content) all r.rest
          (subst (All (IsCounted count content)) (sym r.parted) k) in
      let text =
        chunk_of-content count path content minimum maximum from (last_end from all) r.first
          r.others front in
      let sum : sum_tokens all ≤ maximum =
        subst (λ ps. sum_tokens ps ≤ maximum) r.taken
          (omega (arith, take_pieces-sum minimum maximum 0 (p ∷ ps))) in
      let few = count-joined count sub content all counted in
      let same = ap count text in
      subst (All (IsBounded count maximum)) r.made (
        (omega arith, refl),
        pack-IsBounded rounds (last_end from all) to r.rest r.later back more r.onward,
      )
