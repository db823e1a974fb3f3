-- ===== src/Graph/Incremental/Tests.antt =====
-- One file changes, one goes, and a third imports both.
use px.Prelude.{◌≡◌, ◌↔◌, refl, All, String, List, [], ◌∷◌, ok, any_of, keep_if}
use px.Prelude.Int.{pos}
use px.Prelude.Sort.{sort_by}
use px.Prelude.Maps.{contains, add_key, lookup, string_eq}
use px.Indexer.Reindex.{BlobFile, ReindexPlan, Inventory, is_unchanged, compare_blobs, plan_reindex}
use px.Graph.Incremental.{
  FileGraph, IncrementalMutation, Parsed, Importers, take_graphs, add_importers, relink_of,
  plan_incremental,
}
use px.Graph.Incremental.Graphs.{HasGraph, plan_incremental-HasGraph_iff}
use px.Graph.Incremental.Mutation.{IsMutation, plan_incremental-IsMutation}

abbrev quoted : String → String
quoted s = s

abbrev before : Inventory
before = ("a", "1") ∷ ("gone", "2") ∷ ("user", "3") ∷ []

abbrev after : List BlobFile
after =
    record { path = "a"; sha = "9"; size = pos 1 }
    ∷ record { path = "user"; sha = "3"; size = pos 1 }
    ∷ []

abbrev graph_of_a : FileGraph
graph_of_a = record { path = "a"; blob_sha = "9"; symbols = []; edges = [] }

abbrev parsed : Parsed
parsed = ("a", graph_of_a) ∷ []

abbrev importers : Importers
importers = ("a", "user" ∷ []) ∷ ("gone", "user" ∷ "" ∷ []) ∷ []

abbrev one_mutation : IncrementalMutation
one_mutation = record {
  installation_id = pos 0;
  repository_id = pos 0;
  head_sha = "";
  delete_paths = "a" ∷ "gone" ∷ [];
  upsert_files = graph_of_a ∷ [];
  relink_paths = "a" ∷ "user" ∷ [];
}

plan-one : plan_incremental quoted before after parsed importers ≡ ok one_mutation
unfolding plan_incremental plan_reindex compare_blobs is_unchanged take_graphs add_importers
    relink_of lookup contains add_key sort_by any_of keep_if
plan-one = refl

-- The plan of the blobs: one is written and one deleted.
abbrev plan_of_after : ReindexPlan
plan_of_after = record {
  upsert = record { path = "a"; sha = "9"; size = pos 1 } ∷ [];
  delete = "gone" ∷ [];
  unchanged = 1;
}

plan_reindex-after : plan_reindex quoted before after ≡ ok plan_of_after
unfolding plan_reindex compare_blobs is_unchanged lookup contains add_key sort_by any_of keep_if
plan_reindex-after = refl

plan_incremental-HasGraph_iff_example : All (HasGraph parsed) plan_of_after.upsert ↔ (
    (m : IncrementalMutation) × (plan_incremental quoted before after parsed importers ≡ ok m)
    × IsMutation plan_of_after importers m)
plan_incremental-HasGraph_iff_example =
    plan_incremental-HasGraph_iff quoted before after parsed importers plan_of_after
      plan_reindex-after

-- The graph of the blob that is written was parsed.
after-HasGraph : All (HasGraph parsed) plan_of_after.upsert
unfolding lookup
after-HasGraph = ((graph_of_a, refl, refl), tt)

one_mutation-IsMutation :
    (plan : ReindexPlan) × (plan_reindex quoted before after ≡ ok plan)
    × IsMutation plan importers one_mutation
one_mutation-IsMutation =
    plan_incremental-IsMutation quoted before after parsed importers one_mutation plan-one
