-- ===== src/Indexer/Reindex.antt =====
-- internal/hosted/indexer/reindex.go: the difference between the indexed blobs and those of a commit.
pub mod Applied
mod Compared
pub mod Writes
mod Tests
use px.Prelude.{
  ℕ, ◌+◌, String, Bool, true, false, not, ◌||◌, Option, none, some, List, [], ◌∷◌, map, str_eq,
  if◌then◌else◌, Result, ok, err, ◌>>=◌, ◌>>◌, refuse_if, any_of, keep_if,
}
use Prim.Native.String.{◌++◌ as concat}
use px.Prelude.Int.{ℤ, pos, ltb_ℤ, leb_ℤ}
use px.Prelude.Text.{str_lt}
use px.Prelude.Sort.{sort_by}
use px.Prelude.Maps.{contains, add_key, lookup, keys, string_eq}

pub record BlobFile : Type 0 where
  pub path : String
  pub sha : String
  pub size : ℤ

pub record ReindexPlan : Type 0 where
  pub upsert : List BlobFile
  pub delete : List String
  pub unchanged : ℕ

-- The inventory of the index: a SHA for each path.
abbrev pub Inventory : Type 0
Inventory = List (String × String)

abbrev pub invalid_entry : String × String → Bool
invalid_entry (path, sha) = str_eq path "" || str_eq sha ""

abbrev pub invalid_blob : BlobFile → Bool
invalid_blob f = str_eq f.path "" || str_eq f.sha "" || ltb_ℤ f.size (pos 0)

-- `previous[file.Path] == file.SHA`; a missing path reads the empty SHA.
unfoldable pub is_unchanged : Inventory → BlobFile → Bool
is_unchanged previous f = elim (lookup f.path previous) [
  | none ↦ str_eq "" f.sha
  | some sha ↦ str_eq sha f.sha
]

-- The loop over the current blobs: the paths seen, and the blobs to write.
unfoldable pub compare_blobs :
    (String → String)
    → Inventory
    → List String
    → List BlobFile
    → Result (List String × List BlobFile × ℕ)
compare_blobs quote previous seen [] = ok (seen, [], 0)
compare_blobs quote previous seen (f ∷ fs) =
    refuse_if (invalid_blob f) "indexed blobs require path, SHA, and non-negative size"
    >> refuse_if (contains f.path seen) (concat "duplicate blob path " (quote f.path))
    >> (compare_blobs quote previous (add_key f.path seen) fs >>= λ out.
        ok (
          if is_unchanged previous f then (out.0, out.1, out.2 + 1) else (out.0, f ∷ out.1, out.2)))

abbrev pub by_path : BlobFile → BlobFile → Bool
by_path a b = str_lt a.path b.path

-- `PlanReindex`; `quote` is the formatting verb %q.
unfoldable pub plan_reindex : (String → String) → Inventory → List BlobFile → Result ReindexPlan
plan_reindex quote previous current = do
  refuse_if (any_of invalid_entry previous) "previous blob inventory requires paths and SHAs"
  (seen, upsert, unchanged) ← compare_blobs quote previous [] current
  ok (record {
    upsert = sort_by by_path upsert;
    delete = sort_by str_lt (keep_if (λ path. not (contains path seen)) (keys previous));
    unchanged = unchanged;
  })

pub record ReindexMutation : Type 0 where
  pub installation_id : ℤ
  pub repository_id : ℤ
  pub head_sha : String
  pub upsert : List BlobFile
  pub delete : List String

-- `ApplyReindex`: the store gets the whole plan in one mutation.
unfoldable pub apply_reindex {ℓ} :
    {S : Type ℓ} → Option (ReindexMutation → Result S) → ℤ → ℤ → String → ReindexPlan → Result S
apply_reindex none installation_id repository_id head_sha plan =
    err "store, tenant, repository, and head SHA are required"
apply_reindex (some store) installation_id repository_id head_sha plan = do
  refuse_if (leb_ℤ installation_id (pos 0) || leb_ℤ repository_id (pos 0) || str_eq head_sha "")
      "store, tenant, repository, and head SHA are required"
  store (record {
    installation_id = installation_id;
    repository_id = repository_id;
    head_sha = head_sha;
    upsert = plan.upsert;
    delete = plan.delete;
  })
