-- ===== src/Indexer/Limits/Chosen.antt =====
-- internal/hosted/indexer/limits.go: which files ApplyRepositoryLimits indexes, and which it skips.
use mathlib.Core.List.{Perm, perm_middle}
use mathlib.Core.List.Perm
use px.Prelude.{
  ℕ, suc, ◌^◌, ◌≡◌, refl, sym, ◌∙◌, subst, ◌⊎◌, true, false, List, [], ◌∷◌, ◌++◌, append-nil,
  append_assoc, arith, str_eq, Bool-cases, Result-cases, ltb, inl, inr, ok, length, length-append,
  All, All-map, any_of,
}
use px.Prelude.Int.{ℤ, pos, ◌+ℤ◌, ◌≤ℤ◌, ◌<ℤ◌, +ℤ_parts}
use px.Prelude.Sort.{sort_by, sort_by-perm, All-sort_by}
use px.Indexer.Limits.{
  RepositoryLimits, LimitFile, IndexLimitResult, max_files_of, max_bytes_of, is_over, add_file,
  add_files, mark_partial, by_path, empty_result, apply_repository_limits,
}
use px.Indexer.Limits.Bounds.{
  IsSized, IsInventory, IsIndexed, add64_exact, room, add_file-IsInventory, empty-IsInventory,
  apply_repository_limits-IsIndexed,
}

-- The indexed files are as many as the limit, or the file would make them larger than the limit.
abbrev pub HasNoRoom : RepositoryLimits → List LimitFile → ℤ → LimitFile → Type 0
HasNoRoom limits indexed bytes f =
    (max_files_of limits ≤ℤ pos (length indexed)) ⊎ (max_bytes_of limits <ℤ bytes +ℤ f.size)

-- The files are those indexed and those skipped, for which there is no room.
pub record IsChosen (limits : RepositoryLimits) (files : List LimitFile) (r : IndexLimitResult)
    : Type 0 where
  pub indexed : IsIndexed limits files r
  pub skipped : List LimitFile
  pub parted : Perm (r.indexed_files ++ skipped) files
  pub counted : length skipped ≡ r.skipped_files
  pub no_room : All (HasNoRoom limits r.indexed_files r.indexed_bytes) skipped

-- The same with the files that are left.
record IsParted (limits : RepositoryLimits) (files left : List LimitFile) (r : IndexLimitResult)
    : Type 0 where
  skipped : List LimitFile
  parted : Perm (r.indexed_files ++ (skipped ++ left)) files
  counted : length skipped ≡ r.skipped_files
  no_room : All (HasNoRoom limits r.indexed_files r.indexed_bytes) skipped

moved :
    (files indexed skipped left : List LimitFile) (f : LimitFile)
    → Perm (indexed ++ (skipped ++ (f ∷ left))) files
    → Perm (indexed ++ (f ∷ (skipped ++ left))) files
moved files indexed skipped left f p =
    Perm.trans (Perm.append_left indexed (Perm.symm (perm_middle skipped left))) p

module _ (limits : RepositoryLimits) (small : max_bytes_of limits ≤ℤ pos (2 ^ 62))
    (files : List LimitFile) where
  over-HasNoRoom :
      (seen : ℕ) (r : IndexLimitResult) (f : LimitFile)
      → IsSized f
      → IsInventory limits seen r
      → is_over limits r f ≡ true
      → HasNoRoom limits r.indexed_files r.indexed_bytes f
  unfolding is_over
  over-HasNoRoom seen r f sized h e =
      let exact =
        add64_exact r.indexed_bytes f.size h.bytes_pos (omega (arith, h.bytes_fit, small)) sized.0
          sized.1 in
      ground (arith, exact, e)

  kept-HasNoRoom :
      (r : IndexLimitResult) (f g : LimitFile)
      → IsSized f
      → HasNoRoom limits r.indexed_files r.indexed_bytes g
      → HasNoRoom limits (r.indexed_files ++ f ∷ []) (r.indexed_bytes +ℤ f.size) g
  kept-HasNoRoom r f g sized (inl full) =
      inl (omega (arith, full, length-append r.indexed_files (f ∷ [])))
  kept-HasNoRoom r f g sized (inr large) = inr (
      ground (
        arith,
        sized.0,
        large,
        +ℤ_parts r.indexed_bytes g.size,
        +ℤ_parts r.indexed_bytes f.size,
        +ℤ_parts (r.indexed_bytes +ℤ f.size) g.size,
      ))

  add_file-IsParted :
      (seen : ℕ) (r : IndexLimitResult) (f : LimitFile) (left : List LimitFile)
      → IsSized f
      → IsInventory limits seen r
      → IsParted limits files (f ∷ left) r
      → IsParted limits files left (add_file limits r f)
  unfolding add_file
  add_file-IsParted seen r f left sized h p = elim (Bool-cases (is_over limits r f)) [
    | inl over ↦ rw over (record {
      skipped = f ∷ p.skipped;
      parted = moved files r.indexed_files p.skipped left f p.parted;
      counted = omega (arith, p.counted);
      no_room = (over-HasNoRoom seen r f sized h over, p.no_room);
    })
    | inr fits ↦
        let (exact, many, bytes) = room limits small seen r f sized h fits in
        rw (fits, exact)
          (record {
            skipped = p.skipped;
            parted =
                subst (λ l. Perm l files)
                  (sym (append_assoc r.indexed_files (f ∷ []) (p.skipped ++ left)))
                  (moved files r.indexed_files p.skipped left f p.parted);
            counted = p.counted;
            no_room = All-map (λ g. kept-HasNoRoom r f g sized) p.skipped p.no_room;
          })
  ]

  add_files-IsParted :
      (seen : ℕ) (r out : IndexLimitResult) (left : List LimitFile)
      → All IsSized left
      → IsInventory limits seen r
      → IsParted limits files left r
      → add_files limits r left ≡ ok out
      → IsParted limits files [] out
  unfolding add_files
  add_files-IsParted seen r out [] sized h p done =
      let same : r ≡ out = ground (arith, done) in subst (IsParted limits files []) same p
  add_files-IsParted seen r out (f ∷ fs) sized h p done =
      add_files-IsParted (suc seen) (add_file limits r f) out fs sized.1
        (add_file-IsInventory limits small seen r f sized.0 h)
        (add_file-IsParted seen r f fs sized.0 h p) (ground (arith, done))

mark_partial-files :
    (r : IndexLimitResult)
    → ((mark_partial r).indexed_files ≡ r.indexed_files)
      × ((mark_partial r).skipped_files ≡ r.skipped_files)
      × ((mark_partial r).indexed_bytes ≡ r.indexed_bytes)
unfolding mark_partial
mark_partial-files r = elim (Bool-cases (ltb 0 r.skipped_files)) [
  | inl e ↦ rw e (refl, refl, refl)
  | inr e ↦ rw e (refl, refl, refl)
]

mark_partial-IsChosen :
    (limits : RepositoryLimits) (files : List LimitFile) (r : IndexLimitResult)
    → IsIndexed limits files (mark_partial r)
    → IsParted limits files [] r
    → IsChosen limits files (mark_partial r)
mark_partial-IsChosen limits files r i p =
    let (same, skips, bytes) = mark_partial-files r in
    record {
      indexed = i;
      skipped = p.skipped;
      parted = rw same (rw (append-nil p.skipped) at p.parted);
      counted = p.counted ∙ sym skips;
      no_room = rw (same, bytes) p.no_room;
    }

add_files-mark_partial :
    (files : List LimitFile) (limits : RepositoryLimits) (r : IndexLimitResult)
    → apply_repository_limits files limits ≡ ok r
    → (middle : IndexLimitResult) × (add_files limits
          (empty_result (length (sort_by by_path files)))
          (sort_by by_path files)
        ≡ ok middle)
      × (mark_partial middle ≡ r)
unfolding apply_repository_limits
add_files-mark_partial files limits r h =
    let sorted = sort_by by_path files in
    elim (Result-cases (add_files limits (empty_result (length sorted)) sorted)) [
      | inl (middle, e) ↦ (middle, e, ground (arith, h, e))
      | inr (x, e) ↦ absurd (ground (arith, h, e))
    ]

-- For files with a path and a size from 0 to 2^61, under a byte limit of at most 2^62, the indexed
-- files are no more, and no larger together, than the limits; the files given are, up to order,
-- those indexed and as many others as are counted as skipped; for each of these the limit on files
-- is reached, or it would take the indexed bytes over the limit on bytes; and the state is partial
-- exactly where some file was skipped.
pub apply_repository_limits-IsChosen :
    (files : List LimitFile) (limits : RepositoryLimits)
    → max_bytes_of limits ≤ℤ pos (2 ^ 62)
    → All IsSized files
    → any_of (λ f. str_eq f.path "") files ≡ false
    → (r : IndexLimitResult) × (apply_repository_limits files limits ≡ ok r)
      × IsChosen limits files r
apply_repository_limits-IsChosen files limits small sized named =
    let (r, done, i) = apply_repository_limits-IsIndexed files limits small sized named in
    let (middle, added, same) = add_files-mark_partial files limits r done in
    let sorted = sort_by by_path files in
    let start : IsParted limits files sorted (empty_result (length sorted)) = record {
      skipped = [];
      parted = sort_by-perm by_path files;
      counted = refl;
      no_room = tt;
    } in
    let p =
      add_files-IsParted limits small files 0 (empty_result (length sorted)) middle sorted
        (All-sort_by by_path IsSized files sized) (empty-IsInventory limits (length sorted)) start
        added in
    (
      r,
      done,
      subst (IsChosen limits files) same (
          mark_partial-IsChosen limits files middle (subst (IsIndexed limits files) (sym same) i)
            p),
    )
