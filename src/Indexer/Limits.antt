-- ===== src/Indexer/Limits.antt =====
-- internal/hosted/indexer/limits.go: the files of a repository that fit its limits.
pub mod Bounds
pub mod Chosen
mod Tests
use Prim.Native.String.{◌++◌ as concat}
use px.Prelude.{
  ℕ, suc, ◌+◌, ◌*◌, ◌^◌, String, Bool, true, false, ◌||◌, List, [], ◌∷◌, ◌++◌, ltb, str_eq,
  if◌then◌else◌, Result, ok, err, ◌>>=◌, ◌>>◌, refuse_if, length,
}
use px.Prelude.Int.{ℤ, pos, ltb_ℤ, leb_ℤ, add64}
use px.Prelude.Text.{str_lt, show_ℕ, show_ℤ}
use px.Prelude.Sort.{sort_by}

abbrev pub default_max_files : ℤ
default_max_files = pos 50000

abbrev pub default_max_bytes : ℤ
default_max_bytes = pos (2 * 2 ^ 30)

pub record RepositoryLimits : Type 0 where
  pub max_files : ℤ
  pub max_bytes : ℤ

pub record LimitFile : Type 0 where
  pub path : String
  pub size : ℤ

pub record IndexLimitResult : Type 0 where
  pub state : String
  pub indexed_files : List LimitFile
  pub skipped_files : ℕ
  pub indexed_bytes : ℤ
  pub total_files : ℕ
  pub total_bytes : ℤ
  pub reason : String

abbrev pub max_files_of : RepositoryLimits → ℤ
max_files_of limits = if leb_ℤ limits.max_files (pos 0) then default_max_files else limits.max_files

abbrev pub max_bytes_of : RepositoryLimits → ℤ
max_bytes_of limits = if leb_ℤ limits.max_bytes (pos 0) then default_max_bytes else limits.max_bytes

-- The repository has no room for the file.
unfoldable pub is_over : RepositoryLimits → IndexLimitResult → LimitFile → Bool
is_over limits result file =
    leb_ℤ (max_files_of limits) (pos (length result.indexed_files))
    || ltb_ℤ (max_bytes_of limits) (add64 result.indexed_bytes file.size)

-- One round of the loop.
unfoldable pub add_file : RepositoryLimits → IndexLimitResult → LimitFile → IndexLimitResult
add_file limits result file =
    let counted : IndexLimitResult = record result {
      total_bytes = add64 result.total_bytes file.size;
    } in
    if is_over limits result file
    then record counted { skipped_files = counted.skipped_files + 1 }
    else record counted {
      indexed_files = counted.indexed_files ++ file ∷ [];
      indexed_bytes = add64 counted.indexed_bytes file.size;
    }

unfoldable pub add_files :
    RepositoryLimits → IndexLimitResult → List LimitFile → Result IndexLimitResult
add_files limits result [] = ok result
add_files limits result (file ∷ rest) =
    refuse_if (str_eq file.path "" || ltb_ℤ file.size (pos 0))
      "limit inventory requires paths and non-negative sizes"
    >> add_files limits (add_file limits result file) rest

unfoldable pub limit_reason : IndexLimitResult → String
limit_reason r = concat "indexed " (
    concat (show_ℕ (length r.indexed_files)) (
      concat " of " (
        concat (show_ℕ r.total_files) (
          concat " files and " (
            concat (show_ℤ r.indexed_bytes) (
              concat " of " (concat (show_ℤ r.total_bytes) " bytes; repository limit reached")))))))

-- What follows the loop.
unfoldable pub mark_partial : IndexLimitResult → IndexLimitResult
mark_partial r =
    if ltb 0 r.skipped_files then record r { state = "partial"; reason = limit_reason r } else r

abbrev pub by_path : LimitFile → LimitFile → Bool
by_path a b = str_lt a.path b.path

abbrev pub empty_result : ℕ → IndexLimitResult
empty_result total = record {
  state = "ready";
  indexed_files = [];
  skipped_files = 0;
  indexed_bytes = pos 0;
  total_files = total;
  total_bytes = pos 0;
  reason = "";
}

-- `ApplyRepositoryLimits`
unfoldable pub apply_repository_limits : List LimitFile → RepositoryLimits → Result IndexLimitResult
apply_repository_limits files limits = do
  let sorted = sort_by by_path files
  result ← add_files limits (empty_result (length sorted)) sorted
  ok (mark_partial result)

-- `IndexLimitResult.SummaryLine`
unfoldable pub summary_line : IndexLimitResult → String
summary_line r =
    if str_eq r.state "partial"
    then concat "Repository context is partial: "
        (concat r.reason ". Findings may miss skipped code.")
    else concat "Repository context is ready: " (
        concat (show_ℕ (length r.indexed_files))
          (concat " files (" (concat (show_ℤ r.indexed_bytes) " bytes) indexed.")))
