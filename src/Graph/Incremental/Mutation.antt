-- ===== src/Graph/Incremental/Mutation.antt =====
-- internal/hosted/graph/incremental.go: a mutation in terms of the plan of the blobs and the importers.
use px.Prelude.{
  suc, ◌≡◌, refl, ap, subst, ◌∙◌, String, Bool, true, not, ◌&&◌, ◌||◌, List, [], ◌∷◌, ◌++◌, arith,
  str_eq, eq_iff, ok, Result-cases, Option-cases, inl, inr, if◌then◌else◌, any_of, any_of-append,
  length, All, All-map,
}
use px.Prelude.Text.{str_lt}
use px.Prelude.Sort.{length-sort_by, All-sort_by}
use px.Prelude.SetSort.{contains-sort_by}
use px.Prelude.Maps.{contains, contains-append, contains-add_key, add_key, lookup, string_eq}
use px.Indexer.Reindex.{BlobFile, ReindexPlan, Inventory, plan_reindex}
use px.Graph.Incremental.{
  FileGraph, IncrementalMutation, Parsed, Importers, importers_of, is_match, take_graphs,
  add_importers, relink_of, upsert_paths, by_graph_path, mutation_of, plan_incremental,
}

contains-add_importers :
    (p : String) (relink importers : List String)
    → contains p (add_importers relink importers)
      ≡ (contains p relink || (contains p importers && not (str_eq p "")))
unfolding add_importers contains
contains-add_importers p relink [] = ground arith
contains-add_importers p relink (i ∷ is) = ground (
  arith,
  contains-add_importers p (add_key i relink) is,
  contains-add_importers p relink is,
  contains-add_key p i relink,
  eq_iff p i,
)

-- The path is imported by one of these, in the sense of the importers given.
abbrev pub imports : Importers → String → String → Bool
imports importers p changed = contains p (importers_of importers changed) && not (str_eq p "")

contains-relink_of :
    (replaced : List String) (importers : Importers) (p : String) (relink paths : List String)
    → contains p (relink_of replaced importers relink paths) ≡ (
        contains p relink
        || (contains p paths && contains p replaced)
        || any_of (imports importers p) paths)
unfolding relink_of contains any_of
contains-relink_of replaced importers p relink [] = ground arith
contains-relink_of replaced importers p relink (q ∷ qs) = ground (
  arith,
  contains-relink_of replaced importers p
      (add_importers (if contains q replaced then add_key q relink else relink)
        (importers_of importers q))
      qs,
  contains-add_importers p (if contains q replaced then add_key q relink else relink)
      (importers_of importers q),
  contains-add_key p q relink,
  eq_iff p q,
)

-- The graph belongs to a blob of the list.
abbrev pub Belongs : List BlobFile → FileGraph → Type 0
Belongs files graph = any_of (λ f. is_match f graph) files ≡ true

pub take_graphs-Belongs :
    (parsed : Parsed) (files : List BlobFile) (graphs : List FileGraph)
    → take_graphs parsed files ≡ ok graphs
    → All (Belongs files) graphs × (length graphs ≡ length files)
unfolding take_graphs any_of
take_graphs-Belongs parsed [] graphs h =
    let same : [] ≡ graphs = ground arith in
    subst (λ graphs. All (Belongs []) graphs × (length graphs ≡ 0)) same (tt, refl)
take_graphs-Belongs parsed (f ∷ fs) graphs h = elim (Option-cases (lookup f.path parsed)) [
  | inl e ↦ ground (arith, e)
  | inr (g, e) ↦ elim (Result-cases (take_graphs parsed fs)) [
    | inl (rest, t) ↦
        let (all, long) = take_graphs-Belongs parsed fs rest t in
        let same : g ∷ rest ≡ graphs = ground (arith, e) in
        subst (λ graphs. All (Belongs (f ∷ fs)) graphs × (length graphs ≡ suc (length fs))) same
          ((ground (arith, e), All-map (λ x b. ground arith) rest all), ap suc long)
    | inr (x, t) ↦ ground (arith, e, t)
  ]
]

-- What a mutation does, in terms of the plan of the blobs and of the importers.
pub record IsMutation (plan : ReindexPlan) (importers : Importers) (m : IncrementalMutation)
    : Type 0 where
  pub deleted :
      (p : String)
      → contains p m.delete_paths ≡ (contains p (upsert_paths plan) || contains p plan.delete)
  pub replaced : All (Belongs plan.upsert) m.upsert_files
  pub whole : length m.upsert_files ≡ length plan.upsert
  pub relinked :
      (p : String)
      → contains p m.relink_paths ≡ (
          contains p (upsert_paths plan)
          || any_of (imports importers p) (upsert_paths plan)
          || any_of (imports importers p) plan.delete)

pub mutation_of-IsMutation :
    (plan : ReindexPlan) (importers : Importers) (graphs : List FileGraph)
    → All (Belongs plan.upsert) graphs
    → length graphs ≡ length plan.upsert
    → IsMutation plan importers (mutation_of plan importers graphs)
unfolding contains
mutation_of-IsMutation plan importers graphs all long =
    let changed = upsert_paths plan ++ plan.delete in
    record {
      deleted = λ p.
          contains-sort_by str_lt p changed ∙ contains-append p (upsert_paths plan) plan.delete;
      replaced = All-sort_by by_graph_path (Belongs plan.upsert) graphs all;
      whole = length-sort_by by_graph_path graphs ∙ long;
      relinked = λ p.
          contains-sort_by str_lt p (relink_of (upsert_paths plan) importers [] changed)
          ∙ contains-relink_of (upsert_paths plan) importers p [] changed
          ∙ ground (
            arith,
            contains-append p (upsert_paths plan) plan.delete,
            any_of-append (imports importers p) (upsert_paths plan) plan.delete,
          );
    }

-- A mutation that PlanIncremental gives comes from the plan of the blobs: it deletes exactly the paths
-- that the plan writes or deletes, replaces as many files as the plan writes, each by a graph with the
-- path and the SHA of a blob that the plan writes, and relinks exactly the paths written and the named
-- importers of the paths written or deleted.
pub plan_incremental-IsMutation :
    (quote : String → String) (previous : Inventory) (current : List BlobFile) (parsed : Parsed)
    → (importers : Importers) (m : IncrementalMutation)
    → plan_incremental quote previous current parsed importers ≡ ok m
    → (plan : ReindexPlan) × (plan_reindex quote previous current ≡ ok plan)
      × IsMutation plan importers m
unfolding plan_incremental
plan_incremental-IsMutation quote previous current parsed importers m h =
    elim (Result-cases (plan_reindex quote previous current)) [
      | inl (plan, p) ↦ elim (Result-cases (take_graphs parsed plan.upsert)) [
        | inl (graphs, t) ↦
            let (all, long) = take_graphs-Belongs parsed plan.upsert graphs t in
            let same : mutation_of plan importers graphs ≡ m = ground (arith, p, t) in
            (
              plan,
              p,
              subst (IsMutation plan importers) same
                  (mutation_of-IsMutation plan importers graphs all long),
            )
        | inr (x, t) ↦ ground (arith, p, t)
      ]
      | inr (x, p) ↦ ground (arith, p)
    ]
