-- ===== src/Indexer/Reindex/Applied.antt =====
-- internal/hosted/indexer/reindex.go: a plan applied to the index, against the blobs of the commit.
use px.Prelude.{
  ℕ, ◌+◌, ◌≡◌, refl, ap, ◌∙◌, String, Bool, false, not, ◌&&◌, none, some, List, [], ◌∷◌, arith,
  str_eq, eq_iff, if◌then◌else◌, Option-cases, inl, inr, ok, length, any_of, keep_if,
}
use px.Prelude.Text.{str_lt}
use px.Prelude.Sort.{sort_by, length-sort_by}
use px.Prelude.SetSort.{contains-sort_by}
use px.Prelude.Maps.{contains, lookup, keys, contains-keys, Distinct, string_eq}
use px.Indexer.Reindex.{
  BlobFile, ReindexPlan, Inventory, is_unchanged, by_path, plan_reindex, invalid_blob,
  invalid_entry,
}
use px.Indexer.Reindex.Writes.{
  remove_all, apply_plan, sha_at, paths, sha_at-none, lookup-remove_all, lookup-write_all,
  sorted-Distinct, sha_at-sorted,
}
use px.Indexer.Reindex.Compared.{IsCompared, compare_blobs-IsCompared, compare_blobs-ok}

contains-keep_if :
    (p : String) (g : BlobFile → Bool) (fs : List BlobFile)
    → contains p (paths fs) ≡ false
    → contains p (paths (keep_if g fs)) ≡ false
unfolding keep_if contains
contains-keep_if p g [] h = refl
contains-keep_if p g (f ∷ fs) h = ground (arith, contains-keep_if p g fs)

sha_at-keep_if :
    (previous : Inventory) (p : String) (fs : List BlobFile)
    → Distinct (paths fs)
    → any_of (λ f. str_eq f.sha "") fs ≡ false
    → (if contains p (paths fs)
        then elim (sha_at p (keep_if (λ f. not (is_unchanged previous f)) fs)) [
          | none ↦ lookup p previous
          | some sha ↦ some sha
        ]
        else none)
      ≡ sha_at p fs
unfolding keep_if sha_at contains any_of is_unchanged
sha_at-keep_if previous p [] d n = refl
sha_at-keep_if previous p (f ∷ fs) d n = elim (Option-cases (lookup f.path previous)) [
  | inl e ↦ ground (
    arith,
    sha_at-keep_if previous p fs,
    eq_iff p f.path,
    e,
    eq_iff "" f.sha,
    eq_iff f.sha "",
    sha_at-none f.path (keep_if (λ f. not (is_unchanged previous f)) fs),
    contains-keep_if f.path (λ f. not (is_unchanged previous f)) fs,
  )
  | inr (sha, e) ↦ ground (
    arith,
    sha_at-keep_if previous p fs,
    eq_iff p f.path,
    e,
    eq_iff sha f.sha,
    sha_at-none f.path (keep_if (λ f. not (is_unchanged previous f)) fs),
    contains-keep_if f.path (λ f. not (is_unchanged previous f)) fs,
  )
]

keep_if-Distinct :
    (g : BlobFile → Bool) (fs : List BlobFile)
    → Distinct (paths fs)
    → Distinct (paths (keep_if g fs))
unfolding keep_if
keep_if-Distinct g [] d = tt
keep_if-Distinct g (f ∷ fs) d = ground (arith, contains-keep_if f.path g fs, keep_if-Distinct g fs)

contains-keep_keys :
    (p : String) (seen ps : List String)
    → contains p (keep_if (λ q. not (contains q seen)) ps)
      ≡ (contains p ps && not (contains p seen))
unfolding keep_if contains
contains-keep_keys p seen [] = refl
contains-keep_keys p seen (q ∷ ps) = ground (arith, contains-keep_keys p seen ps, eq_iff p q)

-- After the plan the index holds what the commit holds, and each blob is written or left unchanged.
pub record IsPlan (previous : Inventory) (current : List BlobFile) (plan : ReindexPlan)
    : Type 0 where
  pub reached : (p : String) → lookup p (apply_plan plan previous) ≡ sha_at p current
  pub distinct : Distinct (paths current)
  pub accounted : plan.unchanged + length plan.upsert ≡ length current

contains-nil : (p : String) → contains p [] ≡ false
unfolding contains
contains-nil p = refl

lookup-deleted :
    (p : String) (seen : List String) (previous : Inventory)
    → lookup p (
        remove_all
          (sort_by str_lt (keep_if (λ path. not (contains path seen)) (keys previous)))
          previous)
      ≡ (if contains p seen then lookup p previous else none)
lookup-deleted p seen previous = ground (
  arith,
  lookup-remove_all p (sort_by str_lt (keep_if (λ path. not (contains path seen)) (keys previous)))
      previous,
  contains-sort_by str_lt p (keep_if (λ path. not (contains path seen)) (keys previous)),
  contains-keep_keys p seen (keys previous),
  contains-keys p previous,
)

sha_at-written :
    (previous : Inventory) (current : List BlobFile) (out : List String × List BlobFile × ℕ)
    → IsCompared previous [] current out
    → (p : String)
    → elim (sha_at p out.1) [
      | none ↦ if contains p out.0 then lookup p previous else none
      | some sha ↦ some sha
    ]
      ≡ sha_at p current
sha_at-written previous current out i p = ground (
  arith,
  i.written,
  i.noticed p,
  contains-nil p,
  sha_at-keep_if previous p current i.once i.named,
  sha_at-none p current,
  sha_at-none p (keep_if (λ f. not (is_unchanged previous f)) current),
  contains-keep_if p (λ f. not (is_unchanged previous f)) current,
)

written-Distinct :
    (previous : Inventory) (current : List BlobFile) (out : List String × List BlobFile × ℕ)
    → IsCompared previous [] current out
    → Distinct (paths out.1)
written-Distinct previous current out i =
    rw i.written (keep_if-Distinct (λ f. not (is_unchanged previous f)) current i.once)

made-IsPlan :
    (previous : Inventory) (current : List BlobFile) (out : List String × List BlobFile × ℕ)
    → IsCompared previous [] current out
    → IsPlan previous current (record {
      upsert = sort_by by_path out.1;
      delete = sort_by str_lt (keep_if (λ path. not (contains path out.0)) (keys previous));
      unchanged = out.2;
    })
made-IsPlan previous current out i = record {
  reached = λ p. ground (
    arith,
    lookup-write_all p (sort_by by_path out.1)
        (remove_all (sort_by str_lt (keep_if (λ path. not (contains path out.0)) (keys previous)))
          previous)
        (sorted-Distinct out.1 (written-Distinct previous current out i)),
    sha_at-sorted p out.1 (written-Distinct previous current out i),
    lookup-deleted p out.0 previous,
    sha_at-written previous current out i p,
  );
  distinct = i.once;
  accounted = ap (λ n. out.2 + n) (length-sort_by by_path out.1) ∙ i.counted;
}

-- Where every entry of the index and every blob of the commit is valid, and no path stands in the
-- commit twice, PlanReindex makes a plan: once it is applied to the index, by deleting and then writing
-- what it lists, each path has the SHA that the commit gives it, and no other path is left; the blobs
-- it writes and those it counts as unchanged are as many as the commit has.
pub plan_reindex-IsPlan :
    (quote : String → String) (previous : Inventory) (current : List BlobFile)
    → any_of invalid_entry previous ≡ false
    → any_of invalid_blob current ≡ false
    → Distinct (paths current)
    → (plan : ReindexPlan) × (plan_reindex quote previous current ≡ ok plan)
      × IsPlan previous current plan
unfolding plan_reindex
plan_reindex-IsPlan quote previous current known valid d =
    let (out, e) =
      compare_blobs-ok quote previous [] current valid d (λ p h. ground (arith, contains-nil p)) in
    (
      record {
        upsert = sort_by by_path out.1;
        delete = sort_by str_lt (keep_if (λ path. not (contains path out.0)) (keys previous));
        unchanged = out.2;
      },
      ground arith,
      made-IsPlan previous current out (compare_blobs-IsCompared quote previous [] current out e),
    )
