-- ===== src/Review/Blocks/Joined.antt =====
-- internal/hosted/review/blocks.go: the loops that link the files which share words.
use px.Prelude.{
  ℕ, zero, suc, ◌+◌, ◌≤◌, ◌<◌, ◌≡◌, refl, ap, sym, ◌∙◌, subst, Bool, true, false, arith, ◌==◌,
  ==_iff, if◌then◌else◌, Bool-cases, inl, inr, ◌⊎◌,
}
use px.Review.Blocks.{Parents, link, join_row, join_rows, find_fuel}
use px.Review.Blocks.Forest.{IsForest, root_after, dist_after, link-IsForest}

module _ (share : ℕ → ℕ → Bool) (n : ℕ) where
  -- The least equivalence on indexes that joins the first `n` where they share words.
  pub data Connected : ℕ → ℕ → Type 0 where
    alone : (k : ℕ) → Connected k k
    linked : (i j : ℕ) → i < j → j < n → share i j ≡ true → Connected i j
    back : (i j : ℕ) → Connected i j → Connected j i
    chain : (i j k : ℕ) → Connected i j → Connected j k → Connected i k

  -- The parents after the rows before `i` and, of row `i`, the pairs up to `j`, with `m` links at most.
  pub record IsJoined (m i j : ℕ) (p : Parents) : Type 0 where
    pub root : ℕ → ℕ
    pub dist : ℕ → ℕ
    pub forest : IsForest p root dist
    pub bound : (k : ℕ) → dist k ≤ m
    pub sound : (k : ℕ) → Connected k (root k)
    pub complete :
        (a b : ℕ)
        → a < b
        → b < n
        → (a < i) ⊎ ((a ≡ i) × (b < j))
        → share a b ≡ true
        → root a ≡ root b

  skip-IsJoined :
      (m i j : ℕ) (p : Parents)
      → IsJoined m i j p
      → share i j ≡ false
      → IsJoined (m + 1) i (j + 1) p
  skip-IsJoined m i j p w e = record {
    root = w.root;
    dist = w.dist;
    forest = w.forest;
    bound = λ k. omega (arith, w.bound k);
    sound = w.sound;
    complete = λ a b h k d s. elim (Bool-cases (a == i)) [
      | inr other ↦ w.complete a b h k (ground (arith, other)) s
      | inl here ↦ elim (Bool-cases (b == j)) [
        | inr early ↦ w.complete a b h k (ground (arith, here, early)) s
        | inl last ↦ absurd (ground (arith, e, s, here, last))
      ]
    ];
  }

  link-IsJoined :
      (fuel m i j : ℕ) (p : Parents)
      → IsJoined m i j p
      → m < fuel
      → i < j
      → j < n
      → share i j ≡ true
      → IsJoined (m + 1) i (j + 1) (link fuel i j p)
  link-IsJoined fuel m i j p w h l t e = record {
    root = root_after w.root w.dist (w.root i) (w.root j);
    dist = dist_after w.root w.dist (w.root i) (w.root j);
    forest =
        link-IsForest w.root w.dist fuel i j p w.forest (omega (arith, w.bound i))
          (omega (arith, w.bound j));
    bound = λ k. ground (arith, w.bound k);
    sound = λ k. elim (Bool-cases (w.root k == w.root j)) [
      | inr other ↦ rw other (w.sound k)
      | inl here ↦ rw here (
          chain k j (w.root i)
            (chain k (w.root k) j (w.sound k) (
              back j (w.root k)
                (subst (Connected j) (sym ((==_iff (w.root k) (w.root j)).0 here)) (w.sound j))))
            (chain j i (w.root i) (back i j (linked i j l t e)) (w.sound i)))
    ];
    complete = λ a b h k d s.
        let move = λ (r : ℕ). if r == w.root j then w.root i else r in
        elim (Bool-cases (a == i)) [
          | inr other ↦ ap move (w.complete a b h k (ground (arith, other)) s)
          | inl here ↦ elim (Bool-cases (b == j)) [
            | inr early ↦ ap move (w.complete a b h k (ground (arith, here, early)) s)
            | inl last ↦
                let ai : w.root a ≡ w.root i = ap w.root ((==_iff a i).0 here) in
                let bj : w.root b ≡ w.root j = ap w.root ((==_iff b j).0 last) in
                ground (arith, ai, bj)
          ]
        ];
  }

  join_row-IsJoined :
      (fuel m i c j : ℕ) (p : Parents)
      → IsJoined m i j p
      → m + c ≤ fuel
      → i < j
      → j + c ≡ n
      → IsJoined (m + c) i n (join_row fuel share i c j p)
  unfolding join_row
  join_row-IsJoined fuel m i zero j p w f l e =
      let ej : j ≡ n = omega arith in
      let em : m ≡ m + 0 = omega arith in
      subst (λ (z : ℕ). IsJoined z i n p) em (subst (λ (z : ℕ). IsJoined m i z p) ej w)
  join_row-IsJoined fuel m i (suc c) j p w f l e =
      let em : m + 1 + c ≡ m + suc c = omega arith in
      subst
        (λ (z : ℕ).
          IsJoined z i n
            (join_row fuel share i c (j + 1) (if share i j then link fuel i j p else p)))
        em
        (join_row-IsJoined fuel (m + 1) i c (j + 1) (if share i j then link fuel i j p else p)
          (elim (Bool-cases (share i j)) [
            | inl yes_shared ↦
                rw yes_shared
                  (link-IsJoined fuel m i j p w (omega arith) l (omega arith) yes_shared)
            | inr not_shared ↦ rw not_shared (skip-IsJoined m i j p w not_shared)
          ])
          (omega arith) (omega arith) (omega arith))

  next-IsJoined : (m i : ℕ) (p : Parents) → IsJoined m i n p → IsJoined m (i + 1) (i + 1 + 1) p
  next-IsJoined m i p w = record {
    root = w.root;
    dist = w.dist;
    forest = w.forest;
    bound = w.bound;
    sound = w.sound;
    complete = λ a b h k d s. w.complete a b h k (ground arith) s;
  }

  pub join_rows-IsJoined :
      (fuel m c i : ℕ) (p : Parents)
      → IsJoined m i (i + 1) p
      → m + find_fuel c ≤ fuel
      → i + c ≡ n
      → (links : ℕ) × (links < fuel) × IsJoined links n n (join_rows fuel share c i p)
  unfolding join_rows find_fuel
  join_rows-IsJoined fuel m zero i p w f e = (
    m,
    omega arith,
    record {
      root = w.root;
      dist = w.dist;
      forest = w.forest;
      bound = w.bound;
      sound = w.sound;
      complete = λ a b h k d s. w.complete a b h k (inl (omega arith)) s;
    },
  )
  join_rows-IsJoined fuel m (suc c) i p w f e =
      let row =
        join_row-IsJoined fuel m i c (i + 1) p w (omega arith) (omega arith) (omega arith) in
      let next = next-IsJoined (m + c) i (join_row fuel share i c (i + 1) p) row in
      join_rows-IsJoined fuel (m + c) c (i + 1) (join_row fuel share i c (i + 1) p) next
        (omega arith) (omega arith)

  pub start-IsJoined : IsJoined 0 0 1 (λ i. i)
  start-IsJoined = record {
    root = λ k. k;
    dist = λ k. 0;
    forest = record {
      step = λ k. refl;
      top = λ k. refl;
      own = λ k h. refl;
      ground_level = λ k. refl;
      fall = λ k h. absurd (h refl);
    };
    bound = λ k. omega arith;
    sound = alone;
    complete = λ a b h k d s. absurd (ground arith);
  }

  -- Once every pair is done, the roots of connected indexes are equal.
  pub root-Connected :
      (m : ℕ) (p : Parents) (w : IsJoined m n n p) (a b : ℕ) → Connected a b → w.root a ≡ w.root b
  root-Connected m p w a b (alone k) = refl
  root-Connected m p w a b (linked i j l t e) = w.complete i j l t (inl (omega arith)) e
  root-Connected m p w a b (back i j c) = sym (root-Connected m p w i j c)
  root-Connected m p w a b (chain i j k c d) =
      root-Connected m p w i j c ∙ root-Connected m p w j k d

  pub Connected-root :
      (m : ℕ) (p : Parents) (w : IsJoined m n n p) (a b : ℕ) → w.root a ≡ w.root b → Connected a b
  Connected-root m p w a b e =
      chain a (w.root a) b (w.sound a) (back b (w.root a) (subst (Connected b) (sym e) (w.sound b)))
