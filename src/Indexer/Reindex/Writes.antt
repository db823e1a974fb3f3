-- ===== src/Indexer/Reindex/Writes.antt =====
-- internal/hosted/indexer/reindex.go: the index after the deletions and the writes of a plan.
use px.Prelude.{
  ◌≡◌, refl, ap, ◌∙◌, String, false, ◌||◌, Option, none, some, List, [], ◌∷◌, map, arith, str_eq,
  eq_iff, if◌then◌else◌,
}
use px.Prelude.Sort.{sort_by, insert_by}
use px.Prelude.Maps.{
  contains, lookup, insert, remove, lookup-insert, lookup-remove, Distinct, string_eq,
}
use px.Indexer.Reindex.{BlobFile, ReindexPlan, Inventory, by_path}

-- The index after a plan: the deleted paths go, the written blobs come.
unfoldable pub remove_all : List String → Inventory → Inventory
remove_all [] m = m
remove_all (p ∷ ps) m = remove_all ps (remove p m)

unfoldable pub write_all : List BlobFile → Inventory → Inventory
write_all [] m = m
write_all (f ∷ fs) m = write_all fs (insert f.path f.sha m)

abbrev pub apply_plan : ReindexPlan → Inventory → Inventory
apply_plan plan previous = write_all plan.upsert (remove_all plan.delete previous)

-- The SHA that a commit has at a path.
unfoldable pub sha_at : String → List BlobFile → Option String
sha_at p [] = none
sha_at p (f ∷ fs) = if str_eq p f.path then some f.sha else sha_at p fs

abbrev pub paths : List BlobFile → List String
paths = map (λ f. f.path)

pub lookup-remove_all :
    (p : String) (ps : List String) (m : Inventory)
    → lookup p (remove_all ps m) ≡ (if contains p ps then none else lookup p m)
unfolding remove_all contains
lookup-remove_all p [] m = refl
lookup-remove_all p (q ∷ ps) m =
    ground (arith, lookup-remove_all p ps (remove q m), lookup-remove q p m)

pub sha_at-none :
    (p : String) (fs : List BlobFile) → contains p (paths fs) ≡ false → sha_at p fs ≡ none
unfolding sha_at contains
sha_at-none p [] h = refl
sha_at-none p (f ∷ fs) h = ground (arith, sha_at-none p fs)

pub lookup-write_all :
    (p : String) (fs : List BlobFile) (m : Inventory)
    → Distinct (paths fs)
    → lookup p (write_all fs m) ≡ elim (sha_at p fs) [ none ↦ lookup p m | some sha ↦ some sha ]
unfolding write_all sha_at contains
lookup-write_all p [] m d = refl
lookup-write_all p (f ∷ fs) m d = ground (
  arith,
  lookup-write_all p fs (insert f.path f.sha m) d.1,
  lookup-insert f.path p f.sha m,
  sha_at-none f.path fs d.0,
  eq_iff p f.path,
)

contains-insert_by :
    (p : String) (f : BlobFile) (fs : List BlobFile)
    → contains p (paths (insert_by by_path f fs)) ≡ (str_eq p f.path || contains p (paths fs))
unfolding insert_by contains
contains-insert_by p f [] = refl
contains-insert_by p f (g ∷ gs) = ground (arith, contains-insert_by p f gs)

sha_at-insert_by :
    (p : String) (f : BlobFile) (fs : List BlobFile)
    → contains f.path (paths fs) ≡ false
    → sha_at p (insert_by by_path f fs) ≡ (if str_eq p f.path then some f.sha else sha_at p fs)
unfolding insert_by sha_at contains
sha_at-insert_by p f [] h = refl
sha_at-insert_by p f (g ∷ gs) h =
    ground (arith, sha_at-insert_by p f gs, eq_iff p f.path, eq_iff p g.path, eq_iff f.path g.path)

insert_by-Distinct :
    (f : BlobFile) (fs : List BlobFile)
    → contains f.path (paths fs) ≡ false
    → Distinct (paths fs)
    → Distinct (paths (insert_by by_path f fs))
unfolding insert_by contains
insert_by-Distinct f [] h d = (refl, tt)
insert_by-Distinct f (g ∷ gs) h d = ground (
  arith,
  insert_by-Distinct f gs,
  contains-insert_by g.path f gs,
  eq_iff f.path g.path,
  eq_iff g.path f.path,
)

contains-sorted :
    (p : String) (fs : List BlobFile)
    → contains p (paths (sort_by by_path fs)) ≡ contains p (paths fs)
unfolding sort_by contains
contains-sorted p [] = refl
contains-sorted p (f ∷ fs) =
    contains-insert_by p f (sort_by by_path fs)
    ∙ ap (λ b. str_eq p f.path || b) (contains-sorted p fs)

pub sorted-Distinct :
    (fs : List BlobFile) → Distinct (paths fs) → Distinct (paths (sort_by by_path fs))
unfolding sort_by
sorted-Distinct [] d = tt
sorted-Distinct (f ∷ fs) d =
    insert_by-Distinct f (sort_by by_path fs) (contains-sorted f.path fs ∙ d.0)
      (sorted-Distinct fs d.1)

pub sha_at-sorted :
    (p : String) (fs : List BlobFile)
    → Distinct (paths fs)
    → sha_at p (sort_by by_path fs) ≡ sha_at p fs
unfolding sort_by sha_at
sha_at-sorted p [] d = refl
sha_at-sorted p (f ∷ fs) d =
    sha_at-insert_by p f (sort_by by_path fs) (contains-sorted f.path fs ∙ d.0)
    ∙ ap (λ o. if str_eq p f.path then some f.sha else o) (sha_at-sorted p fs d.1)
