-- ===== src/Indexer/Reindex/Compared.antt =====
-- internal/hosted/indexer/reindex.go: what the comparison of the blobs of a commit finds.
use px.Prelude.{
  ℕ, ◌+◌, ◌≡◌, refl, ap, ◌∙◌, subst, String, true, false, not, ◌||◌, List, [], ◌∷◌, arith, str_eq,
  eq_iff, if◌then◌else◌, Result-cases, inl, inr, ok, length, any_of, keep_if,
}
use px.Prelude.Maps.{contains, add_key, contains-add_key, same_refl, Distinct, string_eq}
use px.Indexer.Reindex.{BlobFile, Inventory, is_unchanged, compare_blobs, invalid_blob}
use px.Indexer.Reindex.Writes.{paths}

-- What the comparison of the blobs found.
pub record IsCompared (previous : Inventory) (seen : List String) (current : List BlobFile)
    (out : List String × List BlobFile × ℕ) : Type 0 where
  pub once : Distinct (paths current)
  pub fresh : (p : String) → contains p seen ≡ true → contains p (paths current) ≡ false
  pub named : any_of (λ f. str_eq f.sha "") current ≡ false
  pub written : out.1 ≡ keep_if (λ f. not (is_unchanged previous f)) current
  pub noticed : (p : String) → contains p out.0 ≡ (contains p seen || contains p (paths current))
  pub counted : out.2 + length out.1 ≡ length current

step-IsCompared :
    (previous : Inventory) (seen : List String) (f : BlobFile) (fs : List BlobFile)
    → (rest : List String × List BlobFile × ℕ) → IsCompared previous (add_key f.path seen) fs rest
    → contains f.path seen ≡ false
    → str_eq f.sha "" ≡ false
    → IsCompared previous seen (f ∷ fs) (
        if is_unchanged previous f
        then (rest.0, rest.1, rest.2 + 1)
        else (rest.0, f ∷ rest.1, rest.2))
unfolding any_of keep_if contains
step-IsCompared previous seen f fs rest i new named = record {
  once = (
    i.fresh f.path (
        contains-add_key f.path f.path seen
        ∙ ap (λ b. b || contains f.path seen) (same_refl f.path)),
    i.once,
  );
  fresh = λ p e. ground (arith, i.fresh p, contains-add_key p f.path seen, eq_iff p f.path);
  named = ground (arith, i.named);
  written = ground (arith, i.written);
  noticed = λ p. ground (arith, i.noticed p, contains-add_key p f.path seen);
  counted = ground (arith, i.counted);
}

pub compare_blobs-IsCompared :
    (quote : String → String) (previous : Inventory) (seen : List String) (current : List BlobFile)
    → (out : List String × List BlobFile × ℕ) → compare_blobs quote previous seen current ≡ ok out
    → IsCompared previous seen current out
unfolding compare_blobs any_of keep_if contains
compare_blobs-IsCompared quote previous seen [] out h = record {
  once = tt;
  fresh = λ p e. refl;
  named = refl;
  written = ground arith;
  noticed = λ p. ground arith;
  counted = ground arith;
}
compare_blobs-IsCompared quote previous seen (f ∷ fs) out h =
    elim (Result-cases (compare_blobs quote previous (add_key f.path seen) fs)) [
      | inl (rest, e) ↦ subst (IsCompared previous seen (f ∷ fs)) (ground arith) (
          step-IsCompared previous seen f fs rest
            (compare_blobs-IsCompared quote previous (add_key f.path seen) fs rest e) (ground arith)
            (ground arith))
      | inr (x, e) ↦ ground arith
    ]

-- No blob is invalid, none stands in the commit twice, and none was seen before.
pub compare_blobs-ok :
    (quote : String → String) (previous : Inventory) (seen : List String) (current : List BlobFile)
    → any_of invalid_blob current ≡ false
    → Distinct (paths current)
    → ((p : String) → contains p seen ≡ true → contains p (paths current) ≡ false)
    → (out : List String × List BlobFile × ℕ) × (compare_blobs quote previous seen current ≡ ok out)
unfolding compare_blobs any_of contains
compare_blobs-ok quote previous seen [] valid d fresh = ((seen, [], 0), refl)
compare_blobs-ok quote previous seen (f ∷ fs) valid d fresh =
    let (rest, e) =
      compare_blobs-ok quote previous (add_key f.path seen) fs (ground arith) d.1
        (λ p q. ground (arith, fresh p, contains-add_key p f.path seen, eq_iff p f.path)) in
    (
      (if is_unchanged previous f
          then (rest.0, rest.1, rest.2 + 1)
          else (rest.0, f ∷ rest.1, rest.2)),
      ground (arith, fresh f.path, same_refl f.path),
    )
