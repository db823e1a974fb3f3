-- ===== src/Review/Blocks/Groups.antt =====
-- internal/hosted/review/blocks.go: the groups that a forest of parents makes.
use px.Prelude.{
  ◌⊎◌, ℕ, zero, suc, ◌+◌, ◌<◌, ◌≡◌, ◌≢◌, ap, sym, ◌∙◌, subst, ◌&&◌, List, [], ◌∷◌, ◌++◌, arith, ltb,
  ◌==◌, ==_iff, Bool-cases, inl, inr, All, All-map, Some,
}
use px.Prelude.Maps.{contains, contains-append, nat_eq}
use px.Review.Blocks.{Parents, find, push_group, collect_groups}
use px.Review.Blocks.Forest.{IsForest, find-IsForest}

module _ (root : ℕ → ℕ) where
  -- The group of a root holds the indexes before `i` that have this root.
  abbrev pub IsGroup : ℕ → ℕ × List ℕ → Type 0
  IsGroup i g = (k : ℕ) → contains k g.1 ≡ (ltb k i && root k == g.0)

  -- Each index before `i` has the group of its root.
  abbrev pub HasGroup : List (ℕ × List ℕ) → ℕ → Type 0
  HasGroup gs r = Some (λ (g : ℕ × List ℕ). g.0 ≡ r) gs

  -- No two groups have the same root.
  abbrev pub IsApart : List (ℕ × List ℕ) → Type 0
  IsApart [] = Unit
  IsApart (g ∷ gs) = All (λ (h : ℕ × List ℕ). h.0 ≢ g.0) gs × IsApart gs

  later-IsGroup : (i : ℕ) (g : ℕ × List ℕ) → IsGroup i g → g.0 ≢ root i → IsGroup (i + 1) g
  later-IsGroup i g h ne k = elim (Bool-cases (k == i)) [
    | inl here ↦
        let e : root k ≡ root i = ap root ((==_iff k i).0 here) in ground (arith, h k, here, e)
    | inr other ↦ ground (arith, h k, other)
  ]

  laters-IsGroup :
      (i : ℕ) (gs : List (ℕ × List ℕ))
      → All (IsGroup i) gs
      → All (λ (h : ℕ × List ℕ). h.0 ≢ root i) gs
      → All (IsGroup (i + 1)) gs
  laters-IsGroup i [] h a = tt
  laters-IsGroup i (g ∷ gs) h a = (later-IsGroup i g h.0 a.0, laters-IsGroup i gs h.1 a.1)

  own-IsGroup :
      (i : ℕ) (is : List ℕ) → IsGroup i (root i, is) → IsGroup (i + 1) (root i, is ++ i ∷ [])
  unfolding contains
  own-IsGroup i is h k = elim (Bool-cases (k == i)) [
    | inl here ↦
        let e : root k ≡ root i = ap root ((==_iff k i).0 here) in
        ground (arith, h k, here, e, contains-append k is (i ∷ []))
    | inr other ↦ ground (arith, h k, other, contains-append k is (i ∷ []))
  ]

  new-IsGroup : (i : ℕ) → ((k : ℕ) → k < i → root k ≢ root i) → IsGroup (i + 1) (root i, i ∷ [])
  unfolding contains
  new-IsGroup i none_before k = elim (Bool-cases (k == i)) [
    | inl here ↦ let e : root k ≡ root i = ap root ((==_iff k i).0 here) in ground (arith, here, e)
    | inr other ↦ ground (arith, other, none_before k)
  ]

  later_group :
      (r : ℕ) (is : List ℕ) (gs : List (ℕ × List ℕ)) {s : ℕ}
      → r ≢ s
      → HasGroup ((r, is) ∷ gs) s
      → HasGroup gs s
  later_group r is gs ne h = elim h [ inl e ↦ absurd (ne e) | inr rest ↦ rest ]

  push_group-IsGroup :
      (i : ℕ) (gs : List (ℕ × List ℕ))
      → ((k : ℕ) → k < i → root k ≡ root i → HasGroup gs (root i))
      → IsApart gs
      → All (IsGroup i) gs
      → All (IsGroup (i + 1)) (push_group (root i) i gs)
  unfolding push_group
  push_group-IsGroup i [] has a h = (new-IsGroup i (λ k l e. has k l e), tt)
  push_group-IsGroup i ((r, is) ∷ gs) has a h = elim (Bool-cases (root i == r)) [
    | inl own ↦
        let e : root i ≡ r = (==_iff (root i) r).0 own in
        rw own (
          subst (λ (s : ℕ). IsGroup i (s, is) → IsGroup (i + 1) (s, is ++ i ∷ [])) e
              (own-IsGroup i is) h.0,
          laters-IsGroup i gs h.1 (All-map (λ g ne q. ne (q ∙ e)) gs a.0),
        )
    | inr other ↦
        let ne : r ≢ root i = λ e. cc (other, (==_iff (root i) r).1 (sym e)) in
        rw other (
          later-IsGroup i (r, is) h.0 ne,
          push_group-IsGroup i gs (λ k l e. later_group r is gs ne (has k l e)) a.1 h.1,
        )
  ]

  push_group-All :
      (P : ℕ → Type 0) (r i : ℕ) (gs : List (ℕ × List ℕ))
      → P r
      → All (λ (h : ℕ × List ℕ). P h.0) gs
      → All (λ (h : ℕ × List ℕ). P h.0) (push_group r i gs)
  unfolding push_group
  push_group-All P r i [] p h = (p, tt)
  push_group-All P r i ((k, is) ∷ gs) p h = elim (Bool-cases (r == k)) [
    | inl own ↦ rw own (h.0, h.1)
    | inr other ↦ rw other (h.0, push_group-All P r i gs p h.1)
  ]

  push_group-IsApart : (r i : ℕ) (gs : List (ℕ × List ℕ)) → IsApart gs → IsApart (push_group r i gs)
  unfolding push_group
  push_group-IsApart r i [] a = (tt, tt)
  push_group-IsApart r i ((k, is) ∷ gs) a = elim (Bool-cases (r == k)) [
    | inl own ↦ rw own (a.0, a.1)
    | inr other ↦
        let ne : r ≢ k = λ e. cc (other, (==_iff r k).1 e) in
        rw other (push_group-All (λ q. q ≢ k) r i gs ne a.0, push_group-IsApart r i gs a.1)
  ]

  push_group-HasGroup :
      (r i s : ℕ) (gs : List (ℕ × List ℕ))
      → (HasGroup gs s) ⊎ (r ≡ s)
      → HasGroup (push_group r i gs) s
  unfolding push_group
  push_group-HasGroup r i s [] h = elim h [ inl n ↦ absurd n | inr e ↦ inl e ]
  push_group-HasGroup r i s ((k, is) ∷ gs) h = elim (Bool-cases (r == k)) [
    | inl own ↦
        let e : r ≡ k = (==_iff r k).0 own in
        rw own (elim h [
          | inl some_group ↦ elim some_group [ inl q ↦ inl q | inr q ↦ inr q ]
          | inr q ↦ inl (sym e ∙ q)
        ])
    | inr other ↦ rw other (elim h [
      | inl some_group ↦ elim some_group [
        | inl q ↦ inl q
        | inr q ↦ inr (push_group-HasGroup r i s gs (inl q))
      ]
      | inr q ↦ inr (push_group-HasGroup r i s gs (inr q))
    ])
  ]

  -- The groups of the indexes before `i`.
  pub record AreGroups (i : ℕ) (gs : List (ℕ × List ℕ)) : Type 0 where
    pub groups : All (IsGroup i) gs
    pub apart : IsApart gs
    pub has : (k : ℕ) → k < i → HasGroup gs (root k)

  push_group-AreGroups :
      (i : ℕ) (gs : List (ℕ × List ℕ))
      → AreGroups i gs
      → AreGroups (i + 1) (push_group (root i) i gs)
  push_group-AreGroups i gs w = record {
    groups = push_group-IsGroup i gs (λ k l e. subst (HasGroup gs) e (w.has k l)) w.apart w.groups;
    apart = push_group-IsApart (root i) i gs w.apart;
    has = λ k l. push_group-HasGroup (root i) i (root k) gs (elim (Bool-cases (k == i)) [
      | inl here ↦ inr (sym (ap root ((==_iff k i).0 here)))
      | inr other ↦ inl (w.has k (ground (arith, other)))
    ]);
  }

  pub collect_groups-AreGroups :
      (dist : ℕ → ℕ) (fuel m i : ℕ) (p : Parents) (gs : List (ℕ × List ℕ))
      → IsForest p root dist
      → ((k : ℕ) → dist k < fuel)
      → AreGroups i gs
      → AreGroups (i + m) (collect_groups fuel m i p gs)
  unfolding collect_groups
  collect_groups-AreGroups dist fuel zero i p gs f b w =
      let e : i ≡ i + 0 = omega arith in subst (λ (n : ℕ). AreGroups n gs) e w
  collect_groups-AreGroups dist fuel (suc m) i p gs f b w =
      let (g, r) = find-IsForest root dist fuel p i f (b i) in
      let e : i + 1 + m ≡ i + suc m = omega arith in
      let next =
        collect_groups-AreGroups dist fuel m (i + 1) (find fuel p i).0 (push_group (root i) i gs) g
          b (push_group-AreGroups i gs w) in
      rw r (
        subst
          (λ (n : ℕ).
            AreGroups n
              (collect_groups fuel m (i + 1) (find fuel p i).0 (push_group (root i) i gs)))
          e next)
