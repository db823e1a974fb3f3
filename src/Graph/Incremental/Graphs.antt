-- ===== src/Graph/Incremental/Graphs.antt =====
-- internal/hosted/graph/incremental.go: the blobs of a plan against the parsed graphs.
use px.Prelude.{
  ◌≡◌, refl, ◌↔◌, String, true, some, List, [], ◌∷◌, arith, ok, Result-cases, Option-cases, inl,
  inr, All,
}
use px.Prelude.Maps.{lookup, string_eq}
use px.Indexer.Reindex.{BlobFile, ReindexPlan, Inventory, plan_reindex}
use px.Graph.Incremental.{
  FileGraph, IncrementalMutation, Parsed, Importers, is_match, take_graphs, mutation_of,
  plan_incremental,
}
use px.Graph.Incremental.Mutation.{IsMutation, take_graphs-Belongs, mutation_of-IsMutation}

-- A graph of this blob was parsed.
abbrev pub HasGraph : Parsed → BlobFile → Type 0
HasGraph parsed file =
    (graph : FileGraph) × (lookup file.path parsed ≡ some graph) × (is_match file graph ≡ true)

take_graphs-ok :
    (parsed : Parsed) (files : List BlobFile)
    → All (HasGraph parsed) files
    → (graphs : List FileGraph) × (take_graphs parsed files ≡ ok graphs)
unfolding take_graphs
take_graphs-ok parsed [] all = ([], refl)
take_graphs-ok parsed (f ∷ fs) all =
    let (graphs, e) = take_graphs-ok parsed fs all.1 in
    let (graph, found, fits) = all.0 in (graph ∷ graphs, ground (arith, found, fits, e))

take_graphs-HasGraph :
    (parsed : Parsed) (files : List BlobFile) (graphs : List FileGraph)
    → take_graphs parsed files ≡ ok graphs
    → All (HasGraph parsed) files
unfolding take_graphs
take_graphs-HasGraph parsed [] graphs h = tt
take_graphs-HasGraph parsed (f ∷ fs) graphs h = elim (Option-cases (lookup f.path parsed)) [
  | inl e ↦ absurd (ground (arith, e))
  | inr (g, e) ↦ elim (Result-cases (take_graphs parsed fs)) [
    | inl (rest, t) ↦ ((g, e, ground (arith, e)), take_graphs-HasGraph parsed fs rest t)
    | inr (x, t) ↦ absurd (ground (arith, e, t))
  ]
]

plan_incremental-HasGraph :
    (quote : String → String) (previous : Inventory) (current : List BlobFile) (parsed : Parsed)
    → (importers : Importers) (plan : ReindexPlan) (m : IncrementalMutation)
    → plan_reindex quote previous current ≡ ok plan
    → plan_incremental quote previous current parsed importers ≡ ok m
    → All (HasGraph parsed) plan.upsert
unfolding plan_incremental
plan_incremental-HasGraph quote previous current parsed importers plan m p h =
    elim (Result-cases (take_graphs parsed plan.upsert)) [
      | inl (graphs, t) ↦ take_graphs-HasGraph parsed plan.upsert graphs t
      | inr (x, t) ↦ absurd (ground (arith, p, t))
    ]

plan_incremental-ok :
    (quote : String → String) (previous : Inventory) (current : List BlobFile) (parsed : Parsed)
    → (importers : Importers) (plan : ReindexPlan) → plan_reindex quote previous current ≡ ok plan
    → All (HasGraph parsed) plan.upsert
    → (m : IncrementalMutation) × (plan_incremental quote previous current parsed importers ≡ ok m)
      × IsMutation plan importers m
unfolding plan_incremental
plan_incremental-ok quote previous current parsed importers plan p all =
    let (graphs, t) = take_graphs-ok parsed plan.upsert all in
    let (whole, long) = take_graphs-Belongs parsed plan.upsert graphs t in
    (
      mutation_of plan importers graphs,
      ground (arith, p, t),
      mutation_of-IsMutation plan importers graphs whole long,
    )

-- Where the blobs have a plan, PlanIncremental gives a mutation exactly if each blob that the plan
-- writes has a parsed graph of its path and SHA; the mutation deletes exactly the paths that the
-- plan writes or deletes, replaces as many files as the plan writes, each by a graph of a blob
-- written, and relinks exactly the paths written and the named importers of the paths written or
-- deleted.
pub plan_incremental-HasGraph_iff :
    (quote : String → String) (previous : Inventory) (current : List BlobFile) (parsed : Parsed)
    → (importers : Importers) (plan : ReindexPlan) → plan_reindex quote previous current ≡ ok plan
    → All (HasGraph parsed) plan.upsert ↔ (
        (m : IncrementalMutation) × (plan_incremental quote previous current parsed importers
          ≡ ok m)
        × IsMutation plan importers m)
plan_incremental-HasGraph_iff quote previous current parsed importers plan p = (
  plan_incremental-ok quote previous current parsed importers plan p,
  λ out. plan_incremental-HasGraph quote previous current parsed importers plan out.0 p out.1,
)
