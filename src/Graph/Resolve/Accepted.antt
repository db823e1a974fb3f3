-- ===== src/Graph/Resolve/Accepted.antt =====
-- internal/hosted/graph/resolve.go: the symbols and references that Resolve accepts.
use px.Prelude.{
  ◌≡◌, refl, ◌↔◌, true, false, ◌||◌, List, [], ◌∷◌, map, arith, str_eq, ok, Result-cases, inl, inr,
  All, All-map, any_of, sym,
}
use px.Prelude.Int.{ℤ, pos, ltb_ℤ, eqb_ℤ-iff}
use px.Prelude.Maps.{contains, Distinct, int_eq}
use px.Graph.Resolve.{
  Symbol, Reference, ResolvedEdge, SymbolIndex, empty_index, add_alias, add_symbol, invalid_symbol,
  index_symbols, candidates_for, edge_from, resolve_references, resolve,
}
use px.Graph.Resolve.Targets.{Edges, resolve-Edges}

abbrev pub ids : List Symbol → List ℤ
ids = map (λ s. s.id)

-- No ID of the symbols was seen before.
abbrev AreNew : List ℤ → List Symbol → Type 0
AreNew seen symbols = (id : ℤ) → contains id seen ≡ true → contains id (ids symbols) ≡ false

-- A call or an import, from one of the IDs, with a place and a target.
pub record IsKnown (known : List ℤ) (r : Reference) : Type 0 where
  pub source : contains r.source_symbol_id known ≡ true
  pub path : str_eq r.source_path "" ≡ false
  pub line : ltb_ℤ (pos 0) r.source_line ≡ true
  pub target : str_eq r.target "" ≡ false
  pub kind : (str_eq r.kind "calls" || str_eq r.kind "imports") ≡ true

-- Each symbol has a positive ID of its own, a path and a name, and each reference is known.
pub record IsAcceptable (symbols : List Symbol) (references : List Reference) : Type 0 where
  pub valid : any_of invalid_symbol symbols ≡ false
  pub distinct : Distinct (ids symbols)
  pub known : All (IsKnown (ids symbols)) references

by_id-add_symbol :
    (index : SymbolIndex) (s : Symbol) → (add_symbol index s).by_id ≡ s.id ∷ index.by_id
unfolding add_symbol add_alias
by_id-add_symbol index s = refl

-- What the loop over the symbols found out.
record IsIndexed (index : SymbolIndex) (symbols : List Symbol) (out : SymbolIndex) : Type 0 where
  valid : any_of invalid_symbol symbols ≡ false
  distinct : Distinct (ids symbols)
  fresh : AreNew index.by_id symbols
  keys : (id : ℤ) → contains id out.by_id ≡ (contains id index.by_id || contains id (ids symbols))

nil-IsIndexed : (index out : SymbolIndex) → index_symbols index [] ≡ ok out → IsIndexed index [] out
unfolding index_symbols any_of contains
nil-IsIndexed index out h = record {
  valid = refl;
  distinct = tt;
  fresh = λ id p. refl;
  keys = λ id. ground (arith, h);
}

index_symbols-cons :
    (index : SymbolIndex) (s : Symbol) (symbols : List Symbol) (out : SymbolIndex)
    → index_symbols index (s ∷ symbols) ≡ ok out
    → (invalid_symbol s ≡ false)
      × (contains s.id index.by_id ≡ false)
      × (index_symbols (add_symbol index s) symbols ≡ ok out)
unfolding index_symbols
index_symbols-cons index s symbols out h = (ground arith, ground arith, ground arith)

cons-IsIndexed :
    (index : SymbolIndex) (s : Symbol) (symbols : List Symbol) (out : SymbolIndex)
    → invalid_symbol s ≡ false
    → contains s.id index.by_id ≡ false
    → IsIndexed (add_symbol index s) symbols out
    → IsIndexed index (s ∷ symbols) out
unfolding any_of contains
cons-IsIndexed index s symbols out fine new i = record {
  valid = ground (arith, i.valid);
  distinct =
      (ground (arith, i.fresh s.id, by_id-add_symbol index s, eqb_ℤ-iff s.id s.id), i.distinct);
  fresh = λ id p. ground (arith, i.fresh id, by_id-add_symbol index s, eqb_ℤ-iff id s.id);
  keys = λ id. ground (arith, i.keys id, by_id-add_symbol index s);
}

index_symbols-IsIndexed :
    (index : SymbolIndex) (symbols : List Symbol) (out : SymbolIndex)
    → index_symbols index symbols ≡ ok out
    → IsIndexed index symbols out
index_symbols-IsIndexed index [] out h = nil-IsIndexed index out h
index_symbols-IsIndexed index (s ∷ ss) out h =
    let (fine, new, rest) = index_symbols-cons index s ss out h in
    cons-IsIndexed index s ss out fine new
      (index_symbols-IsIndexed (add_symbol index s) ss out rest)

index_symbols-ok :
    (index : SymbolIndex) (symbols : List Symbol)
    → any_of invalid_symbol symbols ≡ false
    → Distinct (ids symbols)
    → AreNew index.by_id symbols
    → (out : SymbolIndex) × (index_symbols index symbols ≡ ok out)
unfolding index_symbols any_of contains
index_symbols-ok index [] valid d fresh = (index, refl)
index_symbols-ok index (s ∷ ss) valid d fresh =
    let (out, e) =
      index_symbols-ok (add_symbol index s) ss (ground (arith, valid)) d.1
        (λ id p. ground (arith, p, fresh id, d.0, by_id-add_symbol index s, eqb_ℤ-iff id s.id)) in
    (out, ground (arith, valid, e, fresh s.id, eqb_ℤ-iff s.id s.id))

resolve_references-ok :
    (index : SymbolIndex) (references : List Reference)
    → All (IsKnown index.by_id) references
    → (edges : List ResolvedEdge) × (resolve_references index references ≡ ok edges)
unfolding resolve_references
resolve_references-ok index [] known = ([], refl)
resolve_references-ok index (r ∷ rs) known =
    let (edges, e) = resolve_references-ok index rs known.1 in
    let k = known.0 in
    (
      edge_from r (candidates_for index r) ∷ edges,
      ground (arith, e, k.source, k.path, k.line, k.target, k.kind),
    )

resolve_references-IsKnown :
    (index : SymbolIndex) (references : List Reference) (edges : List ResolvedEdge)
    → resolve_references index references ≡ ok edges
    → All (IsKnown index.by_id) references
unfolding resolve_references
resolve_references-IsKnown index [] edges h = tt
resolve_references-IsKnown index (r ∷ rs) edges h =
    elim (Result-cases (resolve_references index rs)) [
      | inr (x, e) ↦ absurd (ground (arith, h, e))
      | inl (rest, e) ↦ (
        record {
          source = ground (arith, h);
          path = ground (arith, h);
          line = ground (arith, h);
          target = ground (arith, h);
          kind = ground (arith, h);
        },
        resolve_references-IsKnown index rs rest e,
      )
    ]

-- The keys of the index of all the symbols are their IDs.
keys-ids :
    (symbols : List Symbol) (index : SymbolIndex)
    → IsIndexed empty_index symbols index
    → (id : ℤ) → contains id index.by_id ≡ contains id (ids symbols)
unfolding contains
keys-ids symbols index i id = ground (arith, i.keys id)

IsKnown-All :
    (known known' : List ℤ) (references : List Reference)
    → ((id : ℤ) → contains id known ≡ contains id known')
    → All (IsKnown known) references
    → All (IsKnown known') references
IsKnown-All known known' references same =
    All-map
      (λ r k. record {
        source = ground (arith, k.source, same r.source_symbol_id);
        path = k.path;
        line = k.line;
        target = k.target;
        kind = k.kind;
      })
      references

resolve-IsAcceptable :
    (symbols : List Symbol) (references : List Reference) (edges : List ResolvedEdge)
    → resolve symbols references ≡ ok edges
    → IsAcceptable symbols references
unfolding resolve
resolve-IsAcceptable symbols references edges h =
    elim (Result-cases (index_symbols empty_index symbols)) [
      | inr (x, e) ↦ absurd (ground (arith, h, e))
      | inl (index, e) ↦
          let i = index_symbols-IsIndexed empty_index symbols index e in
          record {
            valid = i.valid;
            distinct = i.distinct;
            known =
                IsKnown-All index.by_id (ids symbols) references (keys-ids symbols index i)
                  (resolve_references-IsKnown index references edges (ground (arith, h, e)));
          }
    ]

empty-AreNew : (symbols : List Symbol) → AreNew empty_index.by_id symbols
unfolding contains
empty-AreNew symbols id h = ground arith

resolve-ok :
    (symbols : List Symbol) (references : List Reference)
    → IsAcceptable symbols references
    → (edges : List ResolvedEdge) × (resolve symbols references ≡ ok edges)
      × Edges symbols references edges
unfolding resolve
resolve-ok symbols references a =
    let (index, e) =
      index_symbols-ok empty_index symbols a.valid a.distinct (empty-AreNew symbols) in
    let i = index_symbols-IsIndexed empty_index symbols index e in
    let (edges, f) = resolve_references-ok index references (
      IsKnown-All (ids symbols) index.by_id references (λ id. sym (keys-ids symbols index i id))
        a.known) in
    let made : resolve symbols references ≡ ok edges = ground (arith, e, f) in
    (edges, made, resolve-Edges symbols references edges made)

-- Resolve gives edges exactly where each symbol has a positive ID of its own, a path and a name,
-- and each reference is a call or an import of one of the symbols, with a path, a positive line
-- and a target; then there is one edge for each reference, in order, with its source, place and
-- kind, and its target is a given symbol with nothing unresolved and the confidence of the
-- reference, or it has no target, the unresolved name and the confidence .2.
pub resolve-IsAcceptable_iff :
    (symbols : List Symbol) (references : List Reference)
    → IsAcceptable symbols references ↔ (
        (edges : List ResolvedEdge) × (resolve symbols references ≡ ok edges)
        × Edges symbols references edges)
resolve-IsAcceptable_iff symbols references =
    (resolve-ok symbols references, λ out. resolve-IsAcceptable symbols references out.0 out.1)
