-- ===== src/Graph/Overlay/Heads.antt =====
-- internal/hosted/graph/overlay.go: the symbols and edges of the head, as the loop over the changes adds them.
use px.Prelude.{
  ℕ, suc, ◌+◌, ◌≡◌, refl, ap, sym, ◌∙◌, subst, String, Bool, true, false, ◌||◌, none, some, List,
  [], ◌∷◌, ◌++◌, append-nil, append_assoc, ok, err, str_eq, arith, if◌then◌else◌, keep_if,
  keep_if-append, any_of, any_of-append, length, length-append, All, Bool-cases, Option-cases,
  Result-cases, inl, inr,
}
use px.Prelude.Int.{ℤ, pos, negsuc, ◌≤ℤ◌}
use px.Prelude.Maps.{contains, contains-add_key, lookup, insert, lookup-insert, int_eq, string_eq}
use px.Graph.Overlay.{
  OverlaySymbol, OverlayEdge, ChangedFile, HeadParser, Build, symbol_key, id_at, invalid_symbol,
  differs, add_symbol, add_symbols, map_edge, map_edges, has_ends,
}

-- Symbols with the IDs -(n + 1), -(n + 2), … in order.
unfoldable pub numbered : ℕ → List OverlaySymbol → List OverlaySymbol
numbered n [] = []
numbered n (s ∷ ss) = record s { id = negsuc n } ∷ numbered (n + 1) ss

pub length-numbered : (n : ℕ) (ss : List OverlaySymbol) → length (numbered n ss) ≡ length ss
unfolding numbered
length-numbered n [] = refl
length-numbered n (s ∷ ss) = ap suc (length-numbered (n + 1) ss)

pub numbered-append :
    (n m : ℕ) (xs ys : List OverlaySymbol)
    → m ≡ n + length xs
    → numbered n (xs ++ ys) ≡ numbered n xs ++ numbered m ys
unfolding numbered
numbered-append n m [] ys h = let e : n ≡ m = omega arith in ap (λ (k : ℕ). numbered k ys) e
numbered-append n m (x ∷ xs) ys h =
    ap (λ (zs : List OverlaySymbol). record x { id = negsuc n } ∷ zs)
      (numbered-append (n + 1) m xs ys (omega arith))

-- The symbols that the parser reads in the files of the head, in the order of the changes.
unfoldable pub parsed_symbols : HeadParser → List ChangedFile → List OverlaySymbol
parsed_symbols parser [] = []
parsed_symbols parser (c ∷ cs) =
    let rest = parsed_symbols parser cs in
    if c.deleted then rest else elim (parser c) [ err e ↦ rest | ok parsed ↦ parsed.0 ++ rest ]

module _ (nul : String) (base : List (String × OverlaySymbol)) where
  -- A symbol whose key the changed files of the base do not have.
  abbrev pub is_added : OverlaySymbol → Bool
  is_added s = elim (lookup (symbol_key nul s) base) [ none ↦ true | some old ↦ false ]

  -- A symbol that the base has with another signature or other lines.
  abbrev pub is_modified : OverlaySymbol → Bool
  is_modified s = elim (lookup (symbol_key nul s) base) [ none ↦ false | some old ↦ differs old s ]

  abbrev pub is_keyed : String → OverlaySymbol → Bool
  is_keyed k s = str_eq k (symbol_key nul s)

  -- A build with more symbols of the head.
  pub record IsExtended (hs : List OverlaySymbol) (b b' : Build) : Type 0 where
    pub next : b'.next ≡ b.next + length hs
    pub symbols : b'.symbols ≡ b.symbols ++ hs
    pub added : b'.added ≡ b.added ++ keep_if is_added hs
    pub modified : b'.modified ≡ b.modified ++ keep_if is_modified hs
    pub seen :
        (k : String) → contains k b'.seen_head ≡ (contains k b.seen_head || any_of (is_keyed k) hs)
    pub replaced :
        ((k : ℤ) → id_at k b.replacements ≤ℤ pos 0) → (k : ℤ) → id_at k b'.replacements ≤ℤ pos 0

  pub IsExtended-none : (b : Build) → IsExtended [] b b
  unfolding keep_if any_of
  IsExtended-none b = record {
    next = omega arith;
    symbols = sym (append-nil b.symbols);
    added = sym (append-nil b.added);
    modified = sym (append-nil b.modified);
    seen = λ k. ground arith;
    replaced = λ h. h;
  }

  pub IsExtended-trans :
      (xs ys : List OverlaySymbol) (a b c : Build)
      → IsExtended xs a b
      → IsExtended ys b c
      → IsExtended (xs ++ ys) a c
  IsExtended-trans xs ys a b c f g = record {
    next = omega (arith, f.next, g.next, length-append xs ys);
    symbols = g.symbols ∙ rw f.symbols (append_assoc a.symbols xs ys);
    added =
        g.added
        ∙ rw (f.added, keep_if-append is_added xs ys)
            (append_assoc a.added (keep_if is_added xs) (keep_if is_added ys));
    modified =
        g.modified
        ∙ rw (f.modified, keep_if-append is_modified xs ys)
            (append_assoc a.modified (keep_if is_modified xs) (keep_if is_modified ys));
    seen = λ k. ground (arith, f.seen k, g.seen k, any_of-append (is_keyed k) xs ys);
    replaced = λ h. g.replaced (f.replaced h);
  }

  add_symbol-IsExtended :
      (s : OverlaySymbol) (b : Build)
      → IsExtended (record s { id = negsuc b.next } ∷ []) b (add_symbol nul base s b)
  unfolding add_symbol keep_if any_of
  add_symbol-IsExtended s b =
      elim (Option-cases (lookup (symbol_key nul (record s { id = negsuc b.next })) base)) [
        | inl e ↦ record {
          next = ground (arith, e);
          symbols = ground (arith, e);
          added = ground (arith, e, append-nil b.added);
          modified = ground (arith, e, append-nil b.modified);
          seen = λ k. ground (
            arith,
            e,
            contains-add_key k (symbol_key nul (record s { id = negsuc b.next })) b.seen_head,
          );
          replaced = λ h k. ground (arith, e, h k);
        }
        | inr (old, e) ↦ record {
          next = ground (arith, e);
          symbols = ground (arith, e);
          added = ground (arith, e, append-nil b.added);
          modified = ground (arith, e, append-nil b.modified);
          seen = λ k. ground (
            arith,
            e,
            contains-add_key k (symbol_key nul (record s { id = negsuc b.next })) b.seen_head,
          );
          replaced =
              λ h k. ground (arith, e, h k, lookup-insert old.id k (negsuc b.next) b.replacements);
        }
      ]

  pub add_symbols-IsExtended :
      (c : ChangedFile) (ids : List (ℤ × ℤ)) (b : Build) (ss : List OverlaySymbol)
      (made : Build × List (ℤ × ℤ))
      → add_symbols nul base c ids b ss ≡ ok made
      → IsExtended (numbered b.next ss) b made.0
  unfolding add_symbols numbered
  add_symbols-IsExtended c ids b [] made e =
      let same : (b, ids) ≡ made = ground arith in
      subst (λ m. IsExtended [] b m.0) same (IsExtended-none b)
  add_symbols-IsExtended c ids b (s ∷ ss) made e = elim (Bool-cases (invalid_symbol c ids s)) [
    | inl bad ↦ absurd (ground (arith, bad))
    | inr good ↦
        let first = add_symbol-IsExtended s b in
        let more : add_symbols nul base c (insert s.id (negsuc b.next) ids)
              (add_symbol nul base s b) ss
            ≡ ok made =
          ground (arith, good) in
        let rest =
          add_symbols-IsExtended c (insert s.id (negsuc b.next) ids) (add_symbol nul base s b) ss
            made more in
        IsExtended-trans (record s { id = negsuc b.next } ∷ []) (numbered (b.next + 1) ss) b
          (add_symbol nul base s b) made.0 first
          (subst (λ n. IsExtended (numbered n ss) (add_symbol nul base s b) made.0) first.next rest)
  ]

  add_symbol-edges : (s : OverlaySymbol) (b : Build) → (add_symbol nul base s b).edges ≡ b.edges
  unfolding add_symbol
  add_symbol-edges s b = ground arith

  -- No ID of the map is positive, and the edges are those from before.
  pub add_symbols-kept :
      (c : ChangedFile) (ids : List (ℤ × ℤ)) (b : Build) (ss : List OverlaySymbol)
      (made : Build × List (ℤ × ℤ))
      → ((k : ℤ) → id_at k ids ≤ℤ pos 0)
      → add_symbols nul base c ids b ss ≡ ok made
      → (made.0.edges ≡ b.edges) × ((k : ℤ) → id_at k made.1 ≤ℤ pos 0)
  unfolding add_symbols
  add_symbols-kept c ids b [] made h e =
      let same : (b, ids) ≡ made = ground arith in
      subst (λ m. (m.0.edges ≡ b.edges) × ((k : ℤ) → id_at k m.1 ≤ℤ pos 0)) same (refl, h)
  add_symbols-kept c ids b (s ∷ ss) made h e = elim (Bool-cases (invalid_symbol c ids s)) [
    | inl bad ↦ absurd (ground (arith, bad))
    | inr good ↦
        let (edges, below) =
          add_symbols-kept c (insert s.id (negsuc b.next) ids) (add_symbol nul base s b) ss made
            (λ k. ground (arith, h k, lookup-insert s.id k (negsuc b.next) ids))
            (ground (arith, good)) in
        (edges ∙ add_symbol-edges s b, below)
  ]

-- An edge with both its ends, from a symbol of the head.
abbrev pub IsOfHead : OverlayEdge → Type 0
IsOfHead e = (has_ends e ≡ true) × (e.source_id ≤ℤ pos 0)

map_edge-target : (ids : List (ℤ × ℤ)) (e : OverlayEdge) → (map_edge ids e).target ≡ e.target
unfolding map_edge
map_edge-target ids e = refl

map_edge-source :
    (ids : List (ℤ × ℤ)) (e : OverlayEdge)
    → ((k : ℤ) → id_at k ids ≤ℤ pos 0)
    → (map_edge ids e).source_id ≤ℤ pos 0
unfolding map_edge
map_edge-source ids e h = h e.source_id

pub map_edges-IsOfHead :
    (ids : List (ℤ × ℤ)) (es out : List OverlayEdge)
    → ((k : ℤ) → id_at k ids ≤ℤ pos 0)
    → map_edges ids es ≡ ok out
    → All IsOfHead out
unfolding map_edges
map_edges-IsOfHead ids [] out h e =
    let same : [] ≡ out = ground arith in subst (All IsOfHead) same tt
map_edges-IsOfHead ids (e ∷ es) out h m = elim (Result-cases (map_edges ids es)) [
  | inr (x, f) ↦ absurd (ground (arith, f))
  | inl (rest, f) ↦
      let same : map_edge ids e ∷ rest ≡ out = ground (arith, f) in
      let ends : has_ends (map_edge ids e) ≡ true =
        ground (arith, f, ap (λ (t : String). str_eq t "") (map_edge-target ids e)) in
      subst (All IsOfHead) same
        ((ends, map_edge-source ids e h), map_edges-IsOfHead ids es rest h f)
]
