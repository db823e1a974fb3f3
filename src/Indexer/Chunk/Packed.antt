-- ===== src/Indexer/Chunk/Packed.antt =====
-- internal/hosted/indexer/chunk.go: pieces packed into chunks, and the whole of Chunk.
use px.Prelude.{
  ℕ, zero, suc, ◌+◌, ◌≡◌, refl, ap, sym, ◌∙◌, subst, String, List, [], ◌∷◌, ◌++◌, arith,
  Result-cases, inl, inr, append_assoc, append-nil, ok, ◌⊎◌,
}
use px.Indexer.Bytes.{Bytes, slice}
use px.Indexer.Split.{TokenCounter, Piece}
use px.Indexer.Split.Returns.{Covers, joined, joined-Covers}
use px.Indexer.Chunk.{Chunk, take_pieces, last_end, chunk_of, pack}

pub take_pieces-append :
    (minimum maximum tokens : ℕ) (ps : List Piece)
    → (take_pieces minimum maximum tokens ps).0 ++ (take_pieces minimum maximum tokens ps).1 ≡ ps
unfolding take_pieces
take_pieces-append minimum maximum tokens [] = refl
take_pieces-append minimum maximum tokens (p ∷ ps) =
    ground (arith, take_pieces-append minimum maximum (tokens + p.tokens) ps)

pub Covers-prefix :
    (from to : ℕ) (ps rest : List Piece)
    → Covers from to (ps ++ rest)
    → Covers from (last_end from ps) ps × Covers (last_end from ps) to rest
Covers-prefix from to [] rest h = (refl, h)
Covers-prefix from to (p ∷ ps) rest h =
    let (a, b) = Covers-prefix p.unit.end to ps rest h.2 in ((h.0, h.1, a), b)

pub List-cases {ℓ} :
    {A : Type ℓ} (xs : List A) → (xs ≡ []) ⊎ ((a : A) × (rest : List A) × (xs ≡ a ∷ rest))
List-cases [] = inl refl
List-cases (x ∷ xs) = inr (x, xs, refl)

-- The contents of the chunks, in order.
unfoldable pub contents : List Chunk → Bytes
contents [] = []
contents (c ∷ cs) = c.content ++ contents cs

pub joined-append :
    (content : Bytes) (ps qs : List Piece)
    → joined content (ps ++ qs) ≡ joined content ps ++ joined content qs
unfolding joined
joined-append content [] qs = refl
joined-append content (p ∷ ps) qs =
    ap (λ (bs : Bytes). slice content p.unit.start p.unit.end ++ bs) (joined-append content ps qs)
    ∙ sym (
        append_assoc (slice content p.unit.start p.unit.end) (joined content ps)
          (joined content qs))

module _ (count : TokenCounter) (path : String) (content : Bytes) (minimum maximum : ℕ) where
  pub chunk_of-content :
      (from to : ℕ) (q : Piece) (qs : List Piece)
      → Covers from to (q ∷ qs)
      → (chunk_of count path content q qs).content ≡ joined content (q ∷ qs)
  unfolding chunk_of
  chunk_of-content from to q qs h =
      let (whole, end) = Covers-prefix q.unit.end to qs [] (rw append-nil h.2) in
      sym (
        joined-Covers content q.unit.start (last_end q.unit.end qs) (q ∷ qs)
          (refl, ground (arith, h.0, h.1), whole))

  -- What one round of the loop takes and leaves.
  pub record IsRound (rounds : ℕ) (ps : List Piece) (chunks : List Chunk) : Type 0 where
    pub first : Piece
    pub others : List Piece
    pub rest : List Piece
    pub later : List Chunk
    pub taken : (take_pieces minimum maximum 0 ps).0 ≡ first ∷ others
    pub parted : first ∷ others ++ rest ≡ ps
    pub onward : pack count path content minimum maximum rounds rest ≡ ok later
    pub made : chunk_of count path content first others ∷ later ≡ chunks

  pub pack-IsRound :
      (rounds : ℕ) (p : Piece) (ps : List Piece) (chunks : List Chunk)
      → pack count path content minimum maximum (suc rounds) (p ∷ ps) ≡ ok chunks
      → IsRound rounds (p ∷ ps) chunks
  unfolding pack
  pack-IsRound rounds p ps chunks e =
      let taken = take_pieces minimum maximum 0 (p ∷ ps) in
      elim (List-cases taken.0) [
        | inl none_taken ↦ absurd (ground (arith, none_taken))
        | inr (q, qs, some_taken) ↦
            elim (Result-cases (pack count path content minimum maximum rounds taken.1)) [
              | inr (m, f) ↦ absurd (ground (arith, some_taken, f))
              | inl (later, f) ↦ record {
                first = q;
                others = qs;
                rest = taken.1;
                later = later;
                taken = some_taken;
                parted =
                    ap (λ (xs : List Piece). xs ++ taken.1) (sym some_taken)
                    ∙ take_pieces-append minimum maximum 0 (p ∷ ps);
                onward = f;
                made = ground (arith, some_taken, f);
              }
            ]
      ]

  pub pack-contents :
      (rounds from to : ℕ) (ps : List Piece) (chunks : List Chunk)
      → Covers from to ps
      → pack count path content minimum maximum rounds ps ≡ ok chunks
      → contents chunks ≡ joined content ps
  unfolding pack contents joined
  pack-contents rounds from to [] chunks h e =
      let same : [] ≡ chunks = ground arith in subst (λ cs. contents cs ≡ []) same refl
  pack-contents zero from to (p ∷ ps) chunks h e = cc
  pack-contents (suc rounds) from to (p ∷ ps) chunks h e =
      let r = pack-IsRound rounds p ps chunks e in
      let covers : Covers from to (r.first ∷ r.others ++ r.rest) =
        subst (Covers from to) (sym r.parted) h in
      let (front, back) = Covers-prefix from to (r.first ∷ r.others) r.rest covers in
      let here =
        chunk_of-content from (last_end from (r.first ∷ r.others)) r.first r.others front in
      let there =
        pack-contents rounds (last_end from (r.first ∷ r.others)) to r.rest r.later back r.onward in
      let cut = joined-append content (r.first ∷ r.others) r.rest in
      subst (λ cs. contents cs ≡ joined content (p ∷ ps)) r.made
        (subst
          (λ qs.
            (chunk_of count path content r.first r.others).content ++ contents r.later
            ≡ joined content qs)
          r.parted (rw (here, there) (sym cut)))
