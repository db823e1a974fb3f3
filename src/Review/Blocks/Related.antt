-- ===== src/Review/Blocks/Related.antt =====
-- internal/hosted/review/blocks.go: the groups of GroupBlocks against the files that are connected.
use px.Prelude.{
  ℕ, ◌<◌, ◌≡◌, ◌≢◌, ◌↔◌, subst, Bool, true, false, not, ◌&&◌, List, [], ◌∷◌, map, arith, ltb, inl,
  inr, length, keep_if, any_of, All,
}
use px.Prelude.Maps.{contains, nat_eq}
use px.Review.Blocks.{join_rows, collect_groups, find_fuel, related_groups}
use px.Review.Blocks.Joined.{
  Connected, join_rows-IsJoined, start-IsJoined, root-Connected, Connected-root,
}
use px.Review.Blocks.Groups.{IsGroup, HasGroup, AreGroups, collect_groups-AreGroups}

-- Some group holds both.
unfoldable pub in_one_group : List (List ℕ) → ℕ → ℕ → Bool
unfolding any_of contains
in_one_group groups i j = any_of (λ is. contains i is && contains j is) groups

-- A group that holds two indexes has two at least.
two-le-length :
    (i j : ℕ) (is : List ℕ)
    → i ≢ j
    → contains i is ≡ true
    → contains j is ≡ true
    → ltb (length is) 2 ≡ false
unfolding contains
two-le-length i j [] ne a b = absurd (cc)
two-le-length i j (x ∷ []) ne a b = ground (arith, ne)
two-le-length i j (x ∷ y ∷ is) ne a b = ground arith

abbrev large : List (ℕ × List ℕ) → List (List ℕ)
large gs = keep_if (λ is. not (ltb (length is) 2)) (map (λ g. g.1) gs)

module _ (root : ℕ → ℕ) (n i j : ℕ) where
  in_one_group-root :
      (gs : List (ℕ × List ℕ))
      → All (IsGroup root n) gs
      → in_one_group (large gs) i j ≡ true
      → root i ≡ root j
  unfolding in_one_group keep_if any_of
  in_one_group-root [] h e = cc
  in_one_group-root (g ∷ gs) h e = ground (arith, h.0 i, h.0 j, in_one_group-root gs h.1)

  root-in_one_group :
      (gs : List (ℕ × List ℕ))
      → All (IsGroup root n) gs
      → i < n
      → j < n
      → i ≢ j
      → root i ≡ root j
      → HasGroup root gs (root i)
      → in_one_group (large gs) i j ≡ true
  unfolding in_one_group keep_if any_of
  root-in_one_group [] h a b ne e s = absurd s
  root-in_one_group (g ∷ gs) h a b ne e s = elim s [
    | inl here ↦ ground (arith, h.0 i, h.0 j, here, two-le-length i j g.1 ne)
    | inr later ↦ ground (arith, root-in_one_group gs h.1 a b ne e later)
  ]

-- For every relation of shared words and number of files, two different files stand in one of the
-- groups that GroupBlocks turns into blocks exactly if they are connected: by the least
-- equivalence that joins two files where they share words. The search for a root, with its
-- compression of paths, always ends within its fuel.
pub related_groups-Connected_iff :
    (share : ℕ → ℕ → Bool) (n i j : ℕ)
    → i < n
    → j < n
    → i ≢ j
    → (in_one_group (related_groups share n) i j ≡ true) ↔ Connected share n i j
unfolding related_groups
related_groups-Connected_iff share n i j a b ne =
    let p = join_rows (find_fuel n) share n 0 (λ k. k) in
    let (links, few, w) =
      join_rows-IsJoined share n (find_fuel n) 0 n 0 (λ k. k) (start-IsJoined share n) (omega arith)
        (omega arith) in
    let start : AreGroups w.root 0 [] = record {
      groups = tt;
      apart = tt;
      has = λ k l. absurd (omega arith);
    } in
    let made =
      collect_groups-AreGroups w.root w.dist (find_fuel n) n 0 p [] w.forest
        (λ k. omega (arith, w.bound k)) start in
    let all : AreGroups w.root n (collect_groups (find_fuel n) n 0 p []) =
      subst (λ (m : ℕ). AreGroups w.root m (collect_groups (find_fuel n) n 0 p [])) (omega arith)
        made in
    let gs = collect_groups (find_fuel n) n 0 p [] in
    (
      (λ t. Connected-root share n links p w i j (in_one_group-root w.root n i j gs all.groups t)),
      (λ c.
          root-in_one_group w.root n i j gs all.groups a b ne
            (root-Connected share n links p w i j c) (all.has i a)),
    )
