-- ===== src/Graph/Incremental.antt =====
-- internal/hosted/graph/incremental.go: one mutation that brings the graph to a commit.
pub mod Graphs
pub mod Mutation
mod Tests
use px.Prelude.{
  String, Bool, true, false, not, ◌&&◌, ◌||◌, Option, none, some, List, [], ◌∷◌, ◌++◌, map, str_eq,
  if◌then◌else◌, Result, ok, err, ◌>>=◌, ◌>>◌, refuse_if,
}
use px.Prelude.Int.{ℤ, pos, leb_ℤ}
use px.Prelude.Text.{str_lt}
use px.Prelude.Sort.{sort_by}
use px.Prelude.Maps.{contains, add_key, lookup, string_eq}
use px.Indexer.Reindex.{BlobFile, ReindexPlan, Inventory, plan_reindex}

pub record SymbolRecord : Type 0 where
  pub local_id : String
  pub kind : String
  pub name : String
  pub signature : String
  pub start_line : ℤ
  pub end_line : ℤ

pub record EdgeRecord : Type 0 where
  pub source_local_id : String
  pub target : String
  pub kind : String
  pub source_line : ℤ

pub record FileGraph : Type 0 where
  pub path : String
  pub blob_sha : String
  pub symbols : List SymbolRecord
  pub edges : List EdgeRecord

pub record IncrementalMutation : Type 0 where
  pub installation_id : ℤ
  pub repository_id : ℤ
  pub head_sha : String
  pub delete_paths : List String
  pub upsert_files : List FileGraph
  pub relink_paths : List String

-- The parsed graphs and the importers of each path.
abbrev pub Parsed : Type 0
Parsed = List (String × FileGraph)

abbrev pub Importers : Type 0
Importers = List (String × List String)

abbrev pub importers_of : Importers → String → List String
importers_of importers path = elim (lookup path importers) [ none ↦ [] | some paths ↦ paths ]

abbrev pub is_match : BlobFile → FileGraph → Bool
is_match file graph = str_eq graph.path file.path && str_eq graph.blob_sha file.sha

-- The graph of each blob to write.
unfoldable pub take_graphs : Parsed → List BlobFile → Result (List FileGraph)
take_graphs parsed [] = ok []
take_graphs parsed (file ∷ files) = elim (lookup file.path parsed) [
  | none ↦ err "every changed blob requires a matching parsed graph"
  | some graph ↦
      refuse_if (not (is_match file graph)) "every changed blob requires a matching parsed graph"
      >> (take_graphs parsed files >>= λ graphs. ok (graph ∷ graphs))
]

unfoldable pub add_importers : List String → List String → List String
add_importers relink [] = relink
add_importers relink (importer ∷ importers) =
    add_importers (if str_eq importer "" then relink else add_key importer relink) importers

-- The loop over the changed paths.
unfoldable pub relink_of : List String → Importers → List String → List String → List String
relink_of replaced importers relink [] = relink
relink_of replaced importers relink (path ∷ paths) =
    relink_of replaced importers
      (add_importers (if contains path replaced then add_key path relink else relink)
        (importers_of importers path))
      paths

abbrev pub upsert_paths : ReindexPlan → List String
upsert_paths plan = map (λ f. f.path) plan.upsert

abbrev pub by_graph_path : FileGraph → FileGraph → Bool
by_graph_path a b = str_lt a.path b.path

abbrev pub mutation_of : ReindexPlan → Importers → List FileGraph → IncrementalMutation
mutation_of plan importers graphs = record {
  installation_id = pos 0;
  repository_id = pos 0;
  head_sha = "";
  delete_paths = sort_by str_lt (upsert_paths plan ++ plan.delete);
  upsert_files = sort_by by_graph_path graphs;
  relink_paths =
      sort_by str_lt
        (relink_of (upsert_paths plan) importers [] (upsert_paths plan ++ plan.delete));
}

-- `PlanIncremental`
unfoldable pub plan_incremental :
    (String → String) → Inventory → List BlobFile → Parsed → Importers → Result IncrementalMutation
plan_incremental quote previous current parsed importers =
    plan_reindex quote previous current >>= λ plan.
    take_graphs parsed plan.upsert >>= λ graphs. ok (mutation_of plan importers graphs)

-- `ApplyIncremental`
unfoldable pub apply_incremental {ℓ} :
    {S : Type ℓ}
    → Option (IncrementalMutation → S → S × Option String)
    → ℤ
    → ℤ
    → String
    → IncrementalMutation
    → S
    → S × Option String
apply_incremental none installation_id repository_id head_sha mutation s =
    (s, some "store, tenant, repository, and head SHA are required")
apply_incremental (some store) installation_id repository_id head_sha mutation s =
    if leb_ℤ installation_id (pos 0) || leb_ℤ repository_id (pos 0) || str_eq head_sha ""
    then (s, some "store, tenant, repository, and head SHA are required")
    else store
        (record mutation {
          installation_id = installation_id;
          repository_id = repository_id;
          head_sha = head_sha;
        })
        s
