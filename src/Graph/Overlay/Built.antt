-- ===== src/Graph/Overlay/Built.antt =====
-- internal/hosted/graph/overlay.go: the loop over the changes, against the parsed files of the head.
use px.Prelude.{
  ℕ, ◌+◌, ◌≡◌, ap, sym, ◌∙◌, subst, String, List, [], ◌∷◌, ◌++◌, ok, arith, All, All-append,
  Bool-cases, Result-cases, inl, inr,
}
use px.Prelude.Int.{ℤ, pos, ◌≤ℤ◌}
use px.Prelude.Maps.{lookup, int_eq, string_eq}
use px.Graph.Overlay.{
  OverlaySymbol, OverlayEdge, ChangedFile, HeadParser, Build, id_at, add_symbols, map_edges,
  add_parsed, add_change, add_changes,
}
use px.Graph.Overlay.Heads.{
  numbered, numbered-append, length-numbered, parsed_symbols, IsExtended, IsExtended-none,
  IsExtended-trans, add_symbols-IsExtended, add_symbols-kept, IsOfHead, map_edges-IsOfHead,
}

pub id_at-none : (k : ℤ) → id_at k [] ≤ℤ pos 0
unfolding lookup
id_at-none k = ground arith

module _ (nul : String) (parser : HeadParser) (base : List (String × OverlaySymbol)) where
  -- What the loop over the changes keeps.
  pub record IsBuilt (cs : List ChangedFile) (b b' : Build) : Type 0 where
    pub extended : IsExtended nul base (numbered b.next (parsed_symbols parser cs)) b b'
    pub edges : All IsOfHead b.edges → All IsOfHead b'.edges

  add_parsed-IsBuilt :
      (c : ChangedFile) (cs : List ChangedFile) (b b' : Build) (ss : List OverlaySymbol)
      (es : List OverlayEdge)
      → add_parsed nul parser base c b (ok (ss, es)) ≡ ok b'
      → IsExtended nul base (numbered b.next ss) b b'
        × (All IsOfHead b.edges → All IsOfHead b'.edges)
  add_parsed-IsBuilt c cs b b' ss es e = elim (Result-cases (add_symbols nul base c [] b ss)) [
    | inr (x, f) ↦ absurd (ground (arith, f))
    | inl (made, f) ↦ elim (Result-cases (map_edges made.1 es)) [
      | inr (x, g) ↦ absurd (ground (arith, f, g))
      | inl (edges, g) ↦
          let (kept, below) = add_symbols-kept nul base c [] b ss made id_at-none f in
          let x = add_symbols-IsExtended nul base c [] b ss made f in
          let same : record (made.0) { edges = (made.0).edges ++ edges } ≡ b' =
            ground (arith, f, g) in
          subst
            (λ (z : Build).
              IsExtended nul base (numbered b.next ss) b z
              × (All IsOfHead b.edges → All IsOfHead z.edges))
            same
            (
              record {
                next = x.next;
                symbols = x.symbols;
                added = x.added;
                modified = x.modified;
                seen = x.seen;
                replaced = x.replaced;
              },
              λ h.
                  All-append IsOfHead made.0.edges edges (subst (All IsOfHead) (sym kept) h)
                    (map_edges-IsOfHead made.1 es edges below g),
            )
    ]
  ]

  pub add_changes-IsBuilt :
      (cs : List ChangedFile) (b b' : Build)
      → add_changes nul parser base cs b ≡ ok b'
      → IsBuilt cs b b'
  unfolding add_changes add_change parsed_symbols numbered
  add_changes-IsBuilt [] b b' e =
      let same : b ≡ b' = ground arith in
      subst (IsBuilt [] b) same (record { extended = IsExtended-none nul base b; edges = λ h. h })
  add_changes-IsBuilt (c ∷ cs) b b' e = elim (Bool-cases c.deleted) [
    | inl gone ↦
        let r = add_changes-IsBuilt cs b b' (ground (arith, gone)) in
        record { extended = rw gone r.extended; edges = r.edges }
    | inr present ↦ elim (Result-cases (parser c)) [
      | inr (x, f) ↦ absurd (ground (arith, present, f))
      | inl (parsed, f) ↦ elim (Result-cases (add_parsed nul parser base c b (ok parsed))) [
        | inr (x, g) ↦ absurd (ground (arith, present, f, g))
        | inl (b1, g) ↦
            let (first, grown) = add_parsed-IsBuilt c cs b b1 parsed.0 parsed.1 g in
            let r = add_changes-IsBuilt cs b1 b' (ground (arith, present, f, g)) in
            let heads : parsed_symbols parser (c ∷ cs) ≡ parsed.0 ++ parsed_symbols parser cs =
              ground (arith, present, f) in
            let numbers : numbered b.next (parsed_symbols parser (c ∷ cs))
                ≡ numbered b.next parsed.0 ++ numbered b1.next (parsed_symbols parser cs) =
              ap (numbered b.next) heads
              ∙ numbered-append b.next b1.next parsed.0 (parsed_symbols parser cs)
                  (first.next ∙ ap (λ (n : ℕ). b.next + n) (length-numbered b.next parsed.0)) in
            record {
              extended =
                  subst (λ hs. IsExtended nul base hs b b') (sym numbers)
                    (IsExtended-trans nul base (numbered b.next parsed.0)
                      (numbered b1.next (parsed_symbols parser cs)) b b1 b' first r.extended);
              edges = λ h. r.edges (grown h);
            }
      ]
    ]
  ]
