-- ===== src/Graph/Overlay/Laid.antt =====
-- internal/hosted/graph/overlay.go: an overlay against the base graph and the parsed files of the head.
use px.Prelude.{
  ◌≡◌, refl, ap, sym, ◌∙◌, subst, String, Bool, true, false, not, some, List, [], ◌∷◌, ◌++◌, map,
  append-nil, append_assoc, ok, arith, if◌then◌else◌, keep_if, any_of, All, All-append, All-map,
  Bool-cases, Result-cases, inl, inr,
}
use px.Prelude.Int.{ℤ, pos, ◌<ℤ◌, ◌≤ℤ◌}
use px.Prelude.Sort.{sort_by}
use px.Prelude.Maps.{
  contains, add_key, contains-add_key, Distinct, add_key-Distinct, int_eq, string_eq,
}
use px.Graph.Overlay.{
  OverlaySymbol, OverlayEdge, Snapshot, ChangedFile, HeadParser, Overlay, Build, by_key,
  changed_paths, id_at, removed_ids, base_by_key, invalid_change, add_changes, move_edge, has_ends,
  unseen, started, finish, build_overlay,
}
use px.Graph.Overlay.Heads.{numbered, parsed_symbols, is_added, is_modified, is_keyed}
use px.Graph.Overlay.Built.{IsBuilt, add_changes-IsBuilt, id_at-none}

unfoldable pub unchanged : List String → List OverlaySymbol → List OverlaySymbol
unchanged changed = keep_if (λ s. not (contains s.path changed))

removed_ids-none :
    (changed : List String) (k : ℤ) (ss : List OverlaySymbol)
    → All (λ (s : OverlaySymbol). pos 0 <ℤ s.id) ss
    → k ≤ℤ pos 0
    → contains k (removed_ids changed ss) ≡ false
unfolding removed_ids contains
removed_ids-none changed k [] h l = refl
removed_ids-none changed k (s ∷ ss) h l = ground (
  arith,
  removed_ids-none changed k ss h.1 l,
  contains-add_key k s.id (removed_ids changed ss),
  h.0,
)

All-kept : (p : OverlayEdge → Bool) (es : List OverlayEdge) → All (λ e. p e ≡ true) (keep_if p es)
unfolding keep_if
All-kept p [] = tt
All-kept p (e ∷ es) = elim (Bool-cases (p e)) [
  | inl h ↦ rw h (h, All-kept p es)
  | inr h ↦ rw h (All-kept p es)
]

All-kept_if :
    (P : OverlayEdge → Type 0) (p : OverlayEdge → Bool) (es : List OverlayEdge)
    → All P es
    → All P (keep_if p es)
unfolding keep_if
All-kept_if P p [] h = tt
All-kept_if P p (e ∷ es) h = elim (Bool-cases (p e)) [
  | inl k ↦ rw k (h.0, All-kept_if P p es h.1)
  | inr k ↦ rw k (All-kept_if P p es h.1)
]

-- No edge starts at a symbol that was removed.
abbrev pub IsPresent : List ℤ → OverlayEdge → Type 0
IsPresent removed e = contains e.source_id removed ≡ false

moved-IsPresent :
    (removed : List ℤ) (replacements : List (ℤ × ℤ)) (es : List OverlayEdge)
    → ((k : ℤ) → k ≤ℤ pos 0 → contains k removed ≡ false)
    → ((k : ℤ) → id_at k replacements ≤ℤ pos 0)
    → All (IsPresent removed) (map (move_edge removed replacements) es)
unfolding move_edge
moved-IsPresent removed replacements [] h k = tt
moved-IsPresent removed replacements (e ∷ es) h k = (
  elim (Bool-cases (contains e.source_id removed)) [
    | inl gone ↦ rw gone (h (id_at e.source_id replacements) (k e.source_id))
    | inr here ↦ rw here here
  ],
  moved-IsPresent removed replacements es h k,
)

-- The symbols of the base's changed files whose key no symbol of the head has.
unfoldable pub missing :
    String → List OverlaySymbol → List (String × OverlaySymbol) → List OverlaySymbol
missing nul heads [] = []
missing nul heads ((k, s) ∷ m) =
    let rest = missing nul heads m in if any_of (is_keyed nul [] k) heads then rest else s ∷ rest

unseen-missing :
    (nul : String) (seen : List String) (heads : List OverlaySymbol)
    (m : List (String × OverlaySymbol))
    → ((k : String) → contains k seen ≡ any_of (is_keyed nul [] k) heads)
    → unseen seen m ≡ missing nul heads m
unfolding unseen missing
unseen-missing nul seen heads [] h = refl
unseen-missing nul seen heads ((k, s) ∷ m) h =
    ground (arith, h k, unseen-missing nul seen heads m h)

add_key-new : (k : String) (xs : List String) → contains k xs ≡ false → add_key k xs ≡ xs ++ k ∷ []
unfolding contains add_key
add_key-new k [] h = refl
add_key-new k (x ∷ xs) h = ground (arith, add_key-new k xs)

abbrev pub paths_of : List ChangedFile → List String
paths_of = map (λ c. c.path)

changed_paths-Distinct :
    (quote : String → String) (acc : List String) (cs : List ChangedFile) (changed : List String)
    → Distinct acc
    → changed_paths quote acc cs ≡ ok changed
    → Distinct changed × (changed ≡ acc ++ paths_of cs)
unfolding changed_paths
changed_paths-Distinct quote acc [] changed d e =
    let same : acc ≡ changed = ground arith in
    subst (λ xs. Distinct xs × (xs ≡ acc ++ [])) same (d, sym (append-nil acc))
changed_paths-Distinct quote acc (c ∷ cs) changed d e = elim (Bool-cases (invalid_change c)) [
  | inl bad ↦ absurd (ground (arith, bad))
  | inr good ↦ elim (Bool-cases (contains c.path acc)) [
    | inl twice ↦ absurd (ground (arith, good, twice))
    | inr once ↦
        let (distinct, same) =
          changed_paths-Distinct quote (add_key c.path acc) cs changed
            (add_key-Distinct c.path acc d) (ground (arith, good, once)) in
        (
          distinct,
          same ∙ rw (add_key-new c.path acc once) (append_assoc acc (c.path ∷ []) (paths_of cs)),
        )
  ]
]

module _ (nul : String) (base : Snapshot) (changes : List ChangedFile) (parser : HeadParser) where
  abbrev changed : List String
  changed = paths_of changes

  abbrev pub base_keys : List (String × OverlaySymbol)
  base_keys = base_by_key nul changed [] base.symbols

  -- The symbols of the head, with their new IDs.
  abbrev pub heads : List OverlaySymbol
  heads = numbered 0 (parsed_symbols parser changes)

  pub record IsLaid (o : Overlay) : Type 0 where
    pub distinct : Distinct changed
    pub symbols : o.graph.symbols ≡ unchanged changed base.symbols ++ heads
    pub added : o.delta.added ≡ sort_by (by_key nul) (keep_if (is_added nul base_keys) heads)
    pub modified :
        o.delta.modified ≡ sort_by (by_key nul) (keep_if (is_modified nul base_keys) heads)
    pub removed : o.delta.removed ≡ sort_by (by_key nul) (missing nul heads base_keys)
    pub ends : All (λ e. has_ends e ≡ true) o.graph.edges
    pub sources : All (IsPresent (removed_ids changed base.symbols)) o.graph.edges

  finish-IsLaid :
      (b : Build)
      → Distinct changed
      → All (λ (s : OverlaySymbol). pos 0 <ℤ s.id) base.symbols
      → IsBuilt nul parser base_keys changes (started (unchanged changed base.symbols)) b
      → IsLaid (finish nul (removed_ids changed base.symbols) base_keys base.edges b)
  unfolding finish contains
  finish-IsLaid b d positive r =
      let x = r.extended in
      let none_left =
        λ (k : ℤ) (l : k ≤ℤ pos 0). removed_ids-none changed k base.symbols positive l in
      let head_edges = r.edges tt in
      let moved = map (move_edge (removed_ids changed base.symbols) b.replacements) base.edges in
      record {
        distinct = d;
        symbols = x.symbols;
        added = ap (sort_by (by_key nul)) x.added;
        modified = ap (sort_by (by_key nul)) x.modified;
        removed =
            ap (sort_by (by_key nul))
              (unseen-missing nul b.seen_head heads base_keys (λ k. ground (arith, x.seen k)));
        ends =
            All-append (λ e. has_ends e ≡ true) b.edges (keep_if has_ends moved)
              (All-map (λ e h. h.0) b.edges head_edges) (All-kept has_ends moved);
        sources =
            All-append (IsPresent (removed_ids changed base.symbols)) b.edges
              (keep_if has_ends moved)
              (All-map (λ e h. none_left e.source_id h.1) b.edges head_edges)
              (All-kept_if (IsPresent (removed_ids changed base.symbols)) has_ends moved (
                moved-IsPresent (removed_ids changed base.symbols) b.replacements base.edges
                  none_left (x.replaced id_at-none)));
      }

  -- On a base whose IDs are positive, an overlay that BuildOverlay makes has changes of distinct
  -- paths; its symbols are those of the unchanged files of the base, in order, and then those that
  -- the parser reads in the changed files, with the IDs -1, -2, … in order. Added are those of the
  -- latter whose key the changed files of the base do not have, modified those that they have with
  -- another signature or other lines, removed, for each key of these files that the head does not
  -- have, the last symbol with it, each list sorted by key. Every edge has a source and a target
  -- or the name of one, and none starts at a removed symbol.
  pub build_overlay-IsLaid :
      (quote : String → String) (o : Overlay)
      → All (λ (s : OverlaySymbol). pos 0 <ℤ s.id) base.symbols
      → build_overlay quote nul base changes (some parser) ≡ ok o
      → IsLaid o
  unfolding build_overlay unchanged
  build_overlay-IsLaid quote o positive e = elim (Result-cases (changed_paths quote [] changes)) [
    | inr (x, f) ↦ absurd (ground (arith, f))
    | inl (paths, f) ↦
        let (d, same) = changed_paths-Distinct quote [] changes paths tt f in
        let valid : changed_paths quote [] changes ≡ ok changed = f ∙ ap ok same in
        elim (Result-cases
          (add_changes nul parser base_keys changes (started (unchanged changed base.symbols)))) [
            | inr (x, g) ↦ absurd (ground (arith, valid, g))
            | inl (b, g) ↦
                let laid : finish nul (removed_ids changed base.symbols) base_keys base.edges b
                    ≡ o =
                  ground (arith, valid, g) in
                subst IsLaid laid (
                  finish-IsLaid b (subst Distinct same d) positive (
                    add_changes-IsBuilt nul parser base_keys changes
                      (started (unchanged changed base.symbols)) b g))
          ]
  ]
