-- ===== src/Indexer/Limits/Bounds.antt =====
-- internal/hosted/indexer/limits.go: the sums and counts of ApplyRepositoryLimits.
use px.Prelude.{
  ℕ, suc, ◌+◌, ◌^◌, ◌≡◌, refl, ap, ◌∙◌, subst, false, List, [], ◌∷◌, ◌++◌, arith, ltb, str_eq,
  if◌then◌else◌, Bool-cases, inl, inr, ok, length, length-append, All, any_of,
}
use px.Prelude.Int.{ℤ, pos, ◌+ℤ◌, ◌≤ℤ◌, wrap64, wrap64-eq_of_InRange64, int_laws, +ℤ_parts}
use px.Prelude.Sort.{sort_by, length-sort_by, All-sort_by, any_of-sort_by}
use px.Indexer.Limits.{
  RepositoryLimits, LimitFile, IndexLimitResult, max_files_of, max_bytes_of, is_over, add_file,
  add_files, mark_partial, by_path, empty_result, apply_repository_limits,
}

-- The sizes, added up.
unfoldable pub total_size : List LimitFile → ℤ
total_size [] = pos 0
total_size (f ∷ fs) = f.size +ℤ total_size fs

total_size-append :
    (fs : List LimitFile) (f : LimitFile) → total_size (fs ++ f ∷ []) ≡ total_size fs +ℤ f.size
unfolding total_size
total_size-append [] f = omega int_laws
total_size-append (x ∷ xs) f = rw (total_size-append xs f) (omega int_laws)

-- No size is negative or beyond 2^61.
abbrev pub IsSized : LimitFile → Type 0
IsSized f = (pos 0 ≤ℤ f.size) × (f.size ≤ℤ pos (2 ^ 61))

-- The result after the loop has gone over `seen` files.
pub record IsInventory (limits : RepositoryLimits) (seen : ℕ) (r : IndexLimitResult) : Type 0 where
  pub files_fit : pos (length r.indexed_files) ≤ℤ max_files_of limits
  pub bytes_fit : r.indexed_bytes ≤ℤ max_bytes_of limits
  pub bytes_pos : pos 0 ≤ℤ r.indexed_bytes
  pub bytes_exact : r.indexed_bytes ≡ total_size r.indexed_files
  pub all_counted : length r.indexed_files + r.skipped_files ≡ seen
  pub still_ready : r.state ≡ "ready"

pub add64_exact :
    (a b : ℤ)
    → pos 0 ≤ℤ a
    → a ≤ℤ pos (2 ^ 62)
    → pos 0 ≤ℤ b
    → b ≤ℤ pos (2 ^ 61)
    → wrap64 (a +ℤ b) ≡ a +ℤ b
add64_exact a b la ha lb hb =
    wrap64-eq_of_InRange64 (a +ℤ b) (ground (arith, +ℤ_parts a b), ground (arith, +ℤ_parts a b))

add_zero : (n : ℕ) → n ≡ n + 0
add_zero n = omega arith

zero_add_eq : {n m : ℕ} → n ≡ m → 0 + n ≡ m
zero_add_eq h = omega arith

suc_add : (n m : ℕ) → suc n + m ≡ n + suc m
suc_add n m = omega arith

module _ (limits : RepositoryLimits) (small : max_bytes_of limits ≤ℤ pos (2 ^ 62)) where
  total_files-add_file :
      (r : IndexLimitResult) (f : LimitFile) → (add_file limits r f).total_files ≡ r.total_files
  unfolding add_file
  total_files-add_file r f = ground arith

  -- What it means that the file has room.
  pub room :
      (seen : ℕ) (r : IndexLimitResult) (f : LimitFile)
      → IsSized f
      → IsInventory limits seen r
      → is_over limits r f ≡ false
      → (wrap64 (r.indexed_bytes +ℤ f.size) ≡ r.indexed_bytes +ℤ f.size)
        × (pos (suc (length r.indexed_files)) ≤ℤ max_files_of limits)
        × (r.indexed_bytes +ℤ f.size ≤ℤ max_bytes_of limits)
  unfolding is_over
  room seen r f sized h e =
      let exact =
        add64_exact r.indexed_bytes f.size h.bytes_pos (omega (arith, h.bytes_fit, small)) sized.0
          sized.1 in
      (exact, ground arith, ground (arith, exact))

  pub add_file-IsInventory :
      (seen : ℕ) (r : IndexLimitResult) (f : LimitFile)
      → IsSized f
      → IsInventory limits seen r
      → IsInventory limits (suc seen) (add_file limits r f)
  unfolding add_file
  add_file-IsInventory seen r f sized h = elim (Bool-cases (is_over limits r f)) [
    | inl over ↦ rw over (record {
      files_fit = h.files_fit;
      bytes_fit = h.bytes_fit;
      bytes_pos = h.bytes_pos;
      bytes_exact = h.bytes_exact;
      all_counted = omega (arith, h.all_counted);
      still_ready = h.still_ready;
    })
    | inr fits ↦
        let (exact, files, bytes) = room seen r f sized h fits in
        rw (fits, exact)
          (record {
            files_fit = rw (length-append r.indexed_files (f ∷ [])) (omega (arith, files));
            bytes_fit = bytes;
            bytes_pos = omega (int_laws, h.bytes_pos, sized.0);
            bytes_exact =
                rw (total_size-append r.indexed_files f) (ap (λ b. b +ℤ f.size) h.bytes_exact);
            all_counted = omega (arith, h.all_counted, length-append r.indexed_files (f ∷ []));
            still_ready = h.still_ready;
          })
  ]

  add_files-IsInventory :
      (seen : ℕ) (r : IndexLimitResult) (fs : List LimitFile)
      → All IsSized fs
      → any_of (λ f. str_eq f.path "") fs ≡ false
      → IsInventory limits seen r
      → (r' : IndexLimitResult) × (add_files limits r fs ≡ ok r')
        × IsInventory limits (seen + length fs) r'
        × (r'.total_files ≡ r.total_files)
  unfolding add_files any_of
  add_files-IsInventory seen r [] sized named h =
      (r, refl, subst (λ n. IsInventory limits n r) (add_zero seen) h, refl)
  add_files-IsInventory seen r (f ∷ fs) sized named h =
      let (r', done, h', total) =
        add_files-IsInventory (suc seen) (add_file limits r f) fs sized.1 (ground arith)
          (add_file-IsInventory seen r f sized.0 h) in
      (
        r',
        ground (arith, done, sized.0),
        subst (λ n. IsInventory limits n r') (suc_add seen (length fs)) h',
        total ∙ total_files-add_file r f,
      )

pub empty-IsInventory : (limits : RepositoryLimits) (n : ℕ) → IsInventory limits 0 (empty_result n)
unfolding total_size
empty-IsInventory limits n = record {
  files_fit = ground arith;
  bytes_fit = ground arith;
  bytes_pos = omega arith;
  bytes_exact = refl;
  all_counted = omega arith;
  still_ready = refl;
}

-- What a result says of the files that it was made from.
pub record IsIndexed (limits : RepositoryLimits) (files : List LimitFile) (r : IndexLimitResult)
    : Type 0 where
  pub files_fit : pos (length r.indexed_files) ≤ℤ max_files_of limits
  pub bytes_fit : r.indexed_bytes ≤ℤ max_bytes_of limits
  pub bytes_exact : r.indexed_bytes ≡ total_size r.indexed_files
  pub all_counted : length r.indexed_files + r.skipped_files ≡ length files
  pub total_exact : r.total_files ≡ length files
  pub state_exact : r.state ≡ (if ltb 0 r.skipped_files then "partial" else "ready")

mark_partial-IsIndexed :
    (limits : RepositoryLimits) (files : List LimitFile) (r : IndexLimitResult)
    → IsInventory limits (length files) r
    → r.total_files ≡ length files
    → IsIndexed limits files (mark_partial r)
unfolding mark_partial
mark_partial-IsIndexed limits files r h total = elim (Bool-cases (ltb 0 r.skipped_files)) [
  | inl some_skipped ↦ rw some_skipped (record {
    files_fit = h.files_fit;
    bytes_fit = h.bytes_fit;
    bytes_exact = h.bytes_exact;
    all_counted = h.all_counted;
    total_exact = total;
    state_exact = rw some_skipped;
  })
  | inr all_indexed ↦ rw all_indexed (record {
    files_fit = h.files_fit;
    bytes_fit = h.bytes_fit;
    bytes_exact = h.bytes_exact;
    all_counted = h.all_counted;
    total_exact = total;
    state_exact = rw all_indexed h.still_ready;
  })
]

-- For files with a path and a size from 0 to 2^61, under a byte limit of at most 2^62 (so that no sum
-- leaves int64), there is a result: the indexed files are no more, and no larger together, than the
-- limits; every file is either indexed or counted as skipped; and the state is partial exactly where
-- some file was skipped.
pub apply_repository_limits-IsIndexed :
    (files : List LimitFile) (limits : RepositoryLimits)
    → max_bytes_of limits ≤ℤ pos (2 ^ 62)
    → All IsSized files
    → any_of (λ f. str_eq f.path "") files ≡ false
    → (r : IndexLimitResult) × (apply_repository_limits files limits ≡ ok r)
      × IsIndexed limits files r
unfolding apply_repository_limits
apply_repository_limits-IsIndexed files limits small sized named =
    let sorted = sort_by by_path files in
    let (r, done, h, total) =
      add_files-IsInventory limits small 0 (empty_result (length sorted)) sorted
        (All-sort_by by_path IsSized files sized)
        (any_of-sort_by by_path (λ f. str_eq f.path "") files ∙ named)
        (empty-IsInventory limits (length sorted)) in
    (
      mark_partial r,
      ground (arith, done),
      mark_partial-IsIndexed limits files r
          (subst (λ n. IsInventory limits n r) (zero_add_eq (length-sort_by by_path files)) h)
          (total ∙ length-sort_by by_path files),
    )
