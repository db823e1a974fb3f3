-- ===== src/Indexer/Limits/Tests.antt =====
-- Three files under a limit of two files, and a size that wraps around.
use px.Prelude.{◌-◌, ◌^◌, ◌≡◌, refl, false, List, [], ◌∷◌, ok, arith, any_of, str_eq}
use px.Prelude.Int.{pos, negsuc, wrap64, ◌+ℤ◌}
use px.Prelude.Text.{show_ℕ, show_ℤ}
use px.Prelude.Sort.{sort_by}
use px.Indexer.Limits.{
  RepositoryLimits, LimitFile, IndexLimitResult, is_over, add_file, add_files, limit_reason,
  mark_partial, apply_repository_limits, summary_line,
}
use px.Indexer.Limits.Chosen.{IsChosen, apply_repository_limits-IsChosen}

abbrev two_files : RepositoryLimits
two_files = record { max_files = pos 2; max_bytes = pos 0 }

abbrev three : List LimitFile
three =
    record { path = "c"; size = pos 1 }
    ∷ record { path = "a"; size = pos 10 }
    ∷ record { path = "b"; size = pos 5 }
    ∷ []

abbrev indexed_two : IndexLimitResult
indexed_two = record {
  state = "partial";
  indexed_files = record { path = "a"; size = pos 10 } ∷ record { path = "b"; size = pos 5 } ∷ [];
  skipped_files = 1;
  indexed_bytes = pos 15;
  total_files = 3;
  total_bytes = pos 16;
  reason = "indexed 2 of 3 files and 15 of 16 bytes; repository limit reached";
}

limit_three : apply_repository_limits three two_files ≡ ok indexed_two
unfolding apply_repository_limits add_files add_file is_over mark_partial limit_reason sort_by
    wrap64 ◌+ℤ◌ show_ℕ show_ℤ
limit_three = refl

summary_line-two :
    summary_line indexed_two
    ≡ "Repository context is partial: indexed 2 of 3 files and 15 of 16 bytes; repository limit reached. Findings may miss skipped code."
unfolding summary_line
summary_line-two = refl

all_named : any_of (λ (f : LimitFile). str_eq f.path "") three ≡ false
unfolding any_of
all_named = refl

apply_repository_limits-IsChosen_example :
    (r : IndexLimitResult) × (apply_repository_limits three two_files ≡ ok r)
    × IsChosen two_files three r
apply_repository_limits-IsChosen_example =
    apply_repository_limits-IsChosen three two_files (omega arith) (omega arith) all_named

abbrev huge : List LimitFile
huge = record { path = "a"; size = pos 1 } ∷ record { path = "b"; size = pos (2 ^ 63 - 1) } ∷ []

-- The sum wraps to a negative number, so the huge file passes the test against the byte limit.
huge_is_indexed :
    apply_repository_limits huge two_files
    ≡ ok (record {
      state = "ready";
      indexed_files = huge;
      skipped_files = 0;
      indexed_bytes = negsuc (2 ^ 63 - 1);
      total_files = 2;
      total_bytes = negsuc (2 ^ 63 - 1);
      reason = "";
    })
unfolding apply_repository_limits add_files add_file is_over mark_partial sort_by wrap64 ◌+ℤ◌
huge_is_indexed = refl
