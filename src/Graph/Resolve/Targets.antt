-- ===== src/Graph/Resolve/Targets.antt =====
-- internal/hosted/graph/resolve.go: the edges of Resolve against the symbols given.
use px.Prelude.{
  ◌≡◌, refl, subst, ◌⊎◌, inl, inr, String, true, not, List, [], ◌∷◌, ◌++◌, arith, str_eq, ok,
  Result-cases, Bool-cases, if◌then◌else◌, length, All, All-append, any_of, ◌==◌,
}
use px.Prelude.Int.{ℤ, pos, eqb_ℤ, eqb_ℤ-iff, ◌<ℤ◌}
use px.Prelude.Sort.{All-sort_by}
use px.Prelude.Paths.{clean}
use px.Prelude.Maps.{contains, lookup, lookup-insert, string_eq, int_eq}
use px.Graph.Resolve.{
  Symbol, Reference, ResolvedEdge, Groups, group, add_to_group, SymbolIndex, empty_index, path_name,
  add_alias, add_symbol, index_symbols, first_of_each, by_id_order, unique_symbols, file_or_index,
  candidates_for, confidence_for, edge_from, unresolved_name, fifth_f, resolve_references, resolve,
  resolve_path,
}

group-add_to_group :
    (key other : String) (symbol : Symbol) (groups : Groups)
    → group other (add_to_group key symbol groups)
      ≡ (if str_eq other key then group key groups ++ symbol ∷ [] else group other groups)
unfolding add_to_group group
group-add_to_group key other symbol groups =
    ground (arith, lookup-insert key other (group key groups ++ symbol ∷ []) groups)

module _ (P : Symbol → Type 0) where
  -- Every symbol of every group has the property.
  abbrev Throughout : Groups → Type 0
  Throughout groups = (key : String) → All P (group key groups)

  add_to_group-Throughout :
      (key : String) (symbol : Symbol) (groups : Groups)
      → P symbol
      → Throughout groups
      → Throughout (add_to_group key symbol groups)
  add_to_group-Throughout key symbol groups p all other = elim (Bool-cases (str_eq other key)) [
    | inl same ↦
        rw (group-add_to_group key other symbol groups, same)
          (All-append P (group key groups) (symbol ∷ []) (all key) (p, tt))
    | inr apart ↦ rw (group-add_to_group key other symbol groups, apart) (all other)
  ]

  record IsIndexOf (index : SymbolIndex) : Type 0 where
    paths : Throughout index.by_path_name
    names : Throughout index.by_name
    files : Throughout index.file_symbols

  add_symbol-IsIndexOf :
      (index : SymbolIndex) (symbol : Symbol)
      → P symbol
      → IsIndexOf index
      → IsIndexOf (add_symbol index symbol)
  unfolding add_symbol add_alias
  add_symbol-IsIndexOf index symbol p i = record {
    paths = add_to_group-Throughout _ symbol _ p (add_to_group-Throughout _ symbol _ p i.paths);
    names = add_to_group-Throughout _ symbol _ p i.names;
    files = add_to_group-Throughout _ symbol _ p (add_to_group-Throughout _ symbol _ p i.files);
  }

  index_symbols-IsIndexOf :
      (index : SymbolIndex) (symbols : List Symbol) (out : SymbolIndex)
      → All P symbols
      → IsIndexOf index
      → index_symbols index symbols ≡ ok out
      → IsIndexOf out
  unfolding index_symbols
  index_symbols-IsIndexOf index [] out all i h =
      let same : index ≡ out = ground arith in subst IsIndexOf same i
  index_symbols-IsIndexOf index (s ∷ ss) out all i h =
      index_symbols-IsIndexOf (add_symbol index s) ss out all.1
        (add_symbol-IsIndexOf index s all.0 i) (ground arith)

  first_of_each-All :
      (seen : List ℤ) (symbols : List Symbol) → All P symbols → All P (first_of_each seen symbols)
  unfolding first_of_each
  first_of_each-All seen [] all = tt
  first_of_each-All seen (s ∷ ss) all = elim (Bool-cases (contains s.id seen)) [
    | inl old ↦ rw old (first_of_each-All seen ss all.1)
    | inr new ↦ rw new (all.0, first_of_each-All (s.id ∷ seen) ss all.1)
  ]

  unique_symbols-All : (symbols : List Symbol) → All P symbols → All P (unique_symbols symbols)
  unfolding unique_symbols
  unique_symbols-All symbols all =
      All-sort_by by_id_order P (first_of_each [] symbols) (first_of_each-All [] symbols all)

  file_or_index-All :
      (index : SymbolIndex) (path : String) → IsIndexOf index → All P (file_or_index index path)
  unfolding file_or_index
  file_or_index-All index path i = elim (Bool-cases (length (group path index.file_symbols) == 0)) [
    | inl e ↦ rw e (i.files _)
    | inr e ↦ rw e (i.files path)
  ]

  candidates_for-All :
      (index : SymbolIndex) (r : Reference) → IsIndexOf index → All P (candidates_for index r)
  unfolding candidates_for
  candidates_for-All index r i = elim (Bool-cases (str_eq r.kind "imports")) [
    | inl e ↦ rw e (
        unique_symbols-All _ (file_or_index-All index (resolve_path r.source_path r.target_path) i))
    | inr e ↦ elim (Bool-cases (not (str_eq r.target_path ""))) [
      | inl f ↦ rw (e, f) (unique_symbols-All _ (i.paths _))
      | inr f ↦
          elim (Bool-cases
            (length (group (path_name (clean r.source_path) r.target) index.by_path_name) == 1)) [
              | inl g ↦ rw (e, f, g) (i.paths _)
              | inr g ↦ rw (e, f, g) (unique_symbols-All _ (i.names r.target))
            ]
    ]
  ]

-- A symbol with this ID was given, and the ID is positive.
abbrev pub IsGiven : List Symbol → ℤ → Type 0
IsGiven symbols id = (any_of (λ s. eqb_ℤ s.id id) symbols ≡ true) × (pos 0 <ℤ id)

-- The edge of a reference: it keeps the source, and has a given symbol as its target, with the
-- confidence of the reference, or none, with the name that is unresolved and the confidence .2.
pub record IsEdge (symbols : List Symbol) (r : Reference) (e : ResolvedEdge) : Type 0 where
  pub source : e.source_symbol_id ≡ r.source_symbol_id
  pub place : (e.source_path ≡ r.source_path) × (e.source_line ≡ r.source_line)
  pub kind : e.kind ≡ r.kind
  pub target :
      (IsGiven symbols e.target_symbol_id × (e.unresolved ≡ "") × (e.confidence ≡ confidence_for r))
      ⊎ ((e.target_symbol_id ≡ pos 0)
          × (e.unresolved ≡ unresolved_name r)
          × (e.confidence ≡ fifth_f))

-- One edge for each reference, in their order.
unfoldable pub Edges : List Symbol → List Reference → List ResolvedEdge → Type 0
Edges symbols [] [] = Unit
Edges symbols [] (e ∷ es) = ⊥
Edges symbols (r ∷ rs) [] = ⊥
Edges symbols (r ∷ rs) (e ∷ es) = IsEdge symbols r e × Edges symbols rs es

edge_from-IsEdge :
    (symbols : List Symbol) (r : Reference) (candidates : List Symbol)
    → All (λ s. IsGiven symbols s.id) candidates
    → IsEdge symbols r (edge_from r candidates)
unfolding edge_from
edge_from-IsEdge symbols r [] all = record {
  source = refl;
  place = (refl, refl);
  kind = refl;
  target = inr (refl, refl, refl);
}
edge_from-IsEdge symbols r (s ∷ []) all = record {
  source = refl;
  place = (refl, refl);
  kind = refl;
  target = inl (all.0, refl, refl);
}
edge_from-IsEdge symbols r (s ∷ t ∷ ts) all = record {
  source = refl;
  place = (refl, refl);
  kind = refl;
  target = inr (refl, refl, refl);
}

resolve_references-Edges :
    (symbols : List Symbol) (index : SymbolIndex) (rs : List Reference) (edges : List ResolvedEdge)
    → IsIndexOf (λ s. IsGiven symbols s.id) index
    → resolve_references index rs ≡ ok edges
    → Edges symbols rs edges
unfolding resolve_references Edges
resolve_references-Edges symbols index [] [] i h = tt
resolve_references-Edges symbols index [] (e ∷ es) i h = ground arith
resolve_references-Edges symbols index (r ∷ rs) edges i h =
    elim (Result-cases (resolve_references index rs)) [
      | inl (rest, e) ↦
          let same : edge_from r (candidates_for index r) ∷ rest ≡ edges = ground arith in
          subst (Edges symbols (r ∷ rs)) same (
            edge_from-IsEdge symbols r (candidates_for index r)
                (candidates_for-All (λ s. IsGiven symbols s.id) index r i),
            resolve_references-Edges symbols index rs rest i e,
          )
      | inr (x, e) ↦ ground arith
    ]

index_symbols-positive :
    (index : SymbolIndex) (symbols : List Symbol) (out : SymbolIndex)
    → index_symbols index symbols ≡ ok out
    → All (λ s. pos 0 <ℤ s.id) symbols
unfolding index_symbols
index_symbols-positive index [] out h = tt
index_symbols-positive index (s ∷ ss) out h =
    (ground arith, index_symbols-positive (add_symbol index s) ss out (ground arith))

IsGiven-All :
    (symbols rest : List Symbol)
    → ((id : ℤ)
        → any_of (λ s. eqb_ℤ s.id id) rest ≡ true
        → any_of (λ s. eqb_ℤ s.id id) symbols ≡ true)
    → All (λ s. pos 0 <ℤ s.id) rest
    → All (λ s. IsGiven symbols s.id) rest
unfolding any_of
IsGiven-All symbols [] among positive = tt
IsGiven-All symbols (s ∷ ss) among positive = (
  (among s.id (ground (arith, eqb_ℤ-iff s.id s.id)), positive.0),
  IsGiven-All symbols ss (λ id h. among id (ground arith)) positive.1,
)

-- Where Resolve gives edges, there is one for each reference, in their order, with its source, place and
-- kind: either its target is the positive ID of a symbol that was given, nothing is unresolved, and the
-- confidence is .9 for a reference with a target path and .75 for one without; or it has no target, the
-- unresolved name of the reference, and the confidence .2.
pub resolve-Edges :
    (symbols : List Symbol) (references : List Reference) (edges : List ResolvedEdge)
    → resolve symbols references ≡ ok edges
    → Edges symbols references edges
unfolding resolve group lookup
resolve-Edges symbols references edges h = elim (Result-cases (index_symbols empty_index symbols)) [
  | inl (index, e) ↦
      resolve_references-Edges symbols index references edges
        (index_symbols-IsIndexOf (λ s. IsGiven symbols s.id) empty_index symbols index
          (IsGiven-All symbols symbols (λ id h. h)
            (index_symbols-positive empty_index symbols index e))
          (record { paths = λ key. tt; names = λ key. tt; files = λ key. tt }) e)
        (ground (arith, e))
  | inr (x, e) ↦ ground (arith, e)
]
