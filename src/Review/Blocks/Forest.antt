-- ===== src/Review/Blocks/Forest.antt =====
-- internal/hosted/review/blocks.go: the forest of parents that find and the links keep.
use px.Prelude.{
  ℕ, zero, suc, ◌+◌, ◌<◌, ◌≡◌, ◌≢◌, ap, sym, ◌∙◌, subst, not, ◌&&◌, arith, ◌==◌, ==_iff,
  if◌then◌else◌, Bool-cases, inl, inr,
}
use px.Review.Blocks.{Parents, set_parent, find, link}

-- Following the parents of an index leads to its root, in no more steps than its distance.
pub record IsForest (p root dist : ℕ → ℕ) : Type 0 where
  pub step : (k : ℕ) → root (p k) ≡ root k
  pub top : (k : ℕ) → p (root k) ≡ root k
  pub own : (k : ℕ) → p k ≡ k → root k ≡ k
  pub ground_level : (k : ℕ) → dist (root k) ≡ 0
  pub fall : (k : ℕ) → p k ≢ k → dist (p k) < dist k

module _ (root dist : ℕ → ℕ) where
  root-root : (p : Parents) (k : ℕ) → IsForest p root dist → root (root k) ≡ root k
  root-root p k f = f.own (root k) (f.top k)

  set_parent-IsForest :
      (p : Parents) (i : ℕ)
      → IsForest p root dist
      → p i ≢ i
      → IsForest (set_parent p i (root i)) root dist
  set_parent-IsForest p i f ne = record {
    step = λ k. ground (arith, f.step k, root-root p i f);
    top = λ k. ground (arith, f.top k, root-root p k f);
    own = λ k. ground (arith, f.own k);
    ground_level = f.ground_level;
    fall = λ k h. ground (arith, f.fall k, f.fall i ne, f.ground_level i);
  }

  above_ground : (p : Parents) (i : ℕ) → IsForest p root dist → p i ≢ i → 0 < dist i
  above_ground p i f ne = omega (arith, f.fall i ne)

  moves : (p : Parents) (i : ℕ) → IsForest p root dist → 0 < dist i → p i ≢ i
  moves p i f h e = absurd (omega (arith, f.ground_level i, ap dist (f.own i e)))

  -- With the distance below its fuel, `find` answers the root, and the roots stay.
  pub find-IsForest :
      (fuel : ℕ) (p : Parents) (i : ℕ)
      → IsForest p root dist
      → dist i < fuel
      → IsForest (find fuel p i).0 root dist × ((find fuel p i).1 ≡ root i)
  unfolding find
  find-IsForest zero p i f h = absurd (omega arith)
  find-IsForest (suc fuel) p i f h = elim (Bool-cases (p i == i)) [
    | inl top ↦ let e : p i ≡ i = (==_iff (p i) i).0 top in rw top (f, sym (f.own i e))
    | inr below ↦
        let ne : p i ≢ i = λ e. cc (below, (==_iff (p i) i).1 e) in
        let (g, r) = find-IsForest fuel p (p i) f (omega (arith, f.fall i ne)) in
        let same : (find fuel p (p i)).1 ≡ root i = r ∙ f.step i in
        let moved =
          set_parent-IsForest (find fuel p (p i)).0 i g
            (moves (find fuel p (p i)).0 i g (above_ground p i f ne)) in
        rw below (
          subst (λ v. IsForest (set_parent (find fuel p (p i)).0 i v) root dist) (sym same) moved,
          same,
        )
  ]

  -- The root of every index in the class of `rj` becomes `ri`.
  abbrev pub root_after : ℕ → ℕ → ℕ → ℕ
  root_after ri rj k = if root k == rj then ri else root k

  -- These indexes stand one step further off, unless the classes were one.
  abbrev pub dist_after : ℕ → ℕ → ℕ → ℕ
  dist_after ri rj k = if root k == rj && not (ri == rj) then dist k + 1 else dist k

  graft-IsForest :
      (p : Parents) (i j : ℕ)
      → IsForest p root dist
      → IsForest
          (set_parent p (root j) (root i))
          (root_after (root i) (root j))
          (dist_after (root i) (root j))
  graft-IsForest p i j f = record {
    step = λ k. ground (arith, f.step k, root-root p i f, root-root p j f, root-root p k f);
    top = λ k. ground (arith, f.top k, f.top i, root-root p i f, root-root p j f, root-root p k f);
    own = λ k.
        ground (arith, f.own k, f.own (root j), root-root p i f, root-root p j f, root-root p k f);
    ground_level = λ k. ground (
      arith,
      f.ground_level k,
      f.ground_level i,
      root-root p i f,
      root-root p j f,
      root-root p k f,
    );
    fall = λ k h. ground (
      arith,
      f.fall k,
      f.step k,
      f.ground_level k,
      f.ground_level i,
      f.ground_level j,
      f.top j,
      root-root p i f,
      root-root p j f,
      root-root p k f,
    );
  }

  pub link-IsForest :
      (fuel i j : ℕ) (p : Parents)
      → IsForest p root dist
      → dist i < fuel
      → dist j < fuel
      → IsForest (link fuel i j p) (root_after (root i) (root j)) (dist_after (root i) (root j))
  unfolding link
  link-IsForest fuel i j p f hi hj =
      let (g, rj) = find-IsForest fuel p j f hj in
      let (h, ri) = find-IsForest fuel (find fuel p j).0 i g hi in
      rw (ri, rj) (graft-IsForest (find fuel (find fuel p j).0 i).0 i j h)
