-- ===== src/Indexer/Reindex/Tests.antt =====
-- An index of two blobs, and a commit that changes one, drops one and adds one.
use px.Prelude.{◌≡◌, refl, String, false, List, [], ◌∷◌, ok, any_of, keep_if}
use px.Prelude.Int.{pos}
use px.Prelude.Maps.{lookup, string_eq, contains, add_key, Distinct}
use px.Prelude.Sort.{sort_by}
use px.Indexer.Reindex.{
  BlobFile, ReindexPlan, Inventory, is_unchanged, compare_blobs, plan_reindex, invalid_entry,
  invalid_blob,
}
use px.Indexer.Reindex.Applied.{IsPlan, plan_reindex-IsPlan}
use px.Indexer.Reindex.Writes.{paths}

abbrev quoted : String → String
quoted s = s

abbrev indexed : Inventory
indexed = ("a", "1") ∷ ("b", "2") ∷ ("gone", "3") ∷ []

abbrev commit : List BlobFile
commit =
    record { path = "new"; sha = "9"; size = pos 4 }
    ∷ record { path = "b"; sha = "7"; size = pos 5 }
    ∷ record { path = "a"; sha = "1"; size = pos 6 }
    ∷ []

plan_three :
    plan_reindex quoted indexed commit
    ≡ ok (record {
      upsert =
          record { path = "b"; sha = "7"; size = pos 5 }
          ∷ record { path = "new"; sha = "9"; size = pos 4 }
          ∷ [];
      delete = "gone" ∷ [];
      unchanged = 1;
    })
unfolding plan_reindex compare_blobs is_unchanged lookup contains add_key sort_by any_of keep_if
plan_three = refl

entries_valid : any_of invalid_entry indexed ≡ false
unfolding any_of
entries_valid = refl

blobs_valid : any_of invalid_blob commit ≡ false
unfolding any_of
blobs_valid = refl

commit-Distinct : Distinct (paths commit)
unfolding contains
commit-Distinct = (refl, (refl, (refl, tt)))

plan_reindex-IsPlan_example :
    (plan : ReindexPlan) × (plan_reindex quoted indexed commit ≡ ok plan)
    × IsPlan indexed commit plan
plan_reindex-IsPlan_example =
    plan_reindex-IsPlan quoted indexed commit entries_valid blobs_valid commit-Distinct
