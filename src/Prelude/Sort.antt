-- ===== src/Prelude/Sort.antt =====
-- `sort.Slice`, `sort.SliceStable` and `sort.Strings`: a stable sort by a Boolean `less`. Where the
-- order is total on the elements, the result does not depend on the algorithm.
use Prim.Native.Nat.{suc}
use mathlib.Core.Path.{◌≡◌, refl, ap, ◌∙◌}
use mathlib.Core.Bool.{Bool, true, false, ◌||◌}
use mathlib.Core.Logic.{inl, inr}
use mathlib.Core.List.{List, [], ◌∷◌, ◌++◌, Perm}
use mathlib.Core.List.Perm
use native.Mathlib.Omega.{arith}
use px.Prelude.Tests.{if◌then◌else◌, Bool-cases}
use px.Prelude.Lists.{All, All-append, length, any_of}

module _ {ℓ} {A : Type ℓ} (less : A → A → Bool) where
  -- Put `x` before the first element that is not less than it.
  unfoldable pub insert_by : A → List A → List A
  insert_by x [] = x ∷ []
  insert_by x (y ∷ ys) = let rest = y ∷ insert_by x ys in if less y x then rest else x ∷ y ∷ ys

  unfoldable pub sort_by : List A → List A
  unfolding insert_by
  sort_by [] = []
  sort_by (x ∷ xs) = insert_by x (sort_by xs)

  -- No later element is less than an earlier one.
  abbrev pub Sorted : List A → Type 0
  Sorted [] = Unit
  Sorted (x ∷ xs) = All (λ y. less y x ≡ false) xs × Sorted xs

  pub insert_by-perm : (x : A) (xs : List A) → Perm (insert_by x xs) (x ∷ xs)
  unfolding insert_by
  insert_by-perm x [] = Perm.refl (x ∷ [])
  insert_by-perm x (y ∷ ys) = elim (Bool-cases (less y x)) [
    | inl e ↦ rw e (Perm.trans (Perm.cons y (insert_by-perm x ys)) (Perm.swap x y ys))
    | inr e ↦ rw e (Perm.refl (x ∷ y ∷ ys))
  ]

  -- Sorting keeps every element, as often as it stood there.
  pub sort_by-perm : (xs : List A) → Perm (sort_by xs) xs
  unfolding sort_by
  sort_by-perm [] = Perm.refl []
  sort_by-perm (x ∷ xs) = Perm.trans (insert_by-perm x (sort_by xs)) (Perm.cons x (sort_by-perm xs))

  pub length-insert_by : (x : A) (xs : List A) → length (insert_by x xs) ≡ suc (length xs)
  unfolding insert_by
  length-insert_by x [] = refl
  length-insert_by x (y ∷ ys) = ground (arith, length-insert_by x ys)

  pub length-sort_by : (xs : List A) → length (sort_by xs) ≡ length xs
  unfolding sort_by
  length-sort_by [] = refl
  length-sort_by (x ∷ xs) = length-insert_by x (sort_by xs) ∙ ap suc (length-sort_by xs)

  pub any_of-insert_by :
      (p : A → Bool) (x : A) (xs : List A) → any_of p (insert_by x xs) ≡ (p x || any_of p xs)
  unfolding insert_by any_of
  any_of-insert_by p x [] = refl
  any_of-insert_by p x (y ∷ ys) = ground (arith, any_of-insert_by p x ys)

  pub any_of-sort_by : (p : A → Bool) (xs : List A) → any_of p (sort_by xs) ≡ any_of p xs
  unfolding sort_by any_of
  any_of-sort_by p [] = refl
  any_of-sort_by p (x ∷ xs) = rw any_of-insert_by (ap (λ b. p x || b) (any_of-sort_by p xs))

module _ {ℓ} {A : Type ℓ} (less : A → A → Bool) (P : A → Type 0) where
  pub All-insert_by : (x : A) (xs : List A) → P x → All P xs → All P (insert_by less x xs)
  unfolding insert_by
  All-insert_by x [] p h = (p, tt)
  All-insert_by x (y ∷ ys) p h = elim (Bool-cases (less y x)) [
    | inl e ↦ rw e (h.0, All-insert_by x ys p h.1)
    | inr e ↦ rw e (p, h)
  ]

  pub All-sort_by : (xs : List A) → All P xs → All P (sort_by less xs)
  unfolding sort_by
  All-sort_by [] h = tt
  All-sort_by (x ∷ xs) h = All-insert_by x (sort_by less xs) h.0 (All-sort_by xs h.1)

-- What `sort` asks of `less`.
pub record IsOrder {ℓ} {A : Type ℓ} (less : A → A → Bool) : Type ℓ where
  pub asym : (a b : A) → less a b ≡ true → less b a ≡ false
  pub step : (a b c : A) → less b a ≡ false → less c b ≡ false → less c a ≡ false

module _ {ℓ} {A : Type ℓ} (less : A → A → Bool) (o : IsOrder less) where
  All-step :
      (a b : A) (xs : List A)
      → less b a ≡ false
      → All (λ y. less y b ≡ false) xs
      → All (λ y. less y a ≡ false) xs
  All-step a b [] h k = tt
  All-step a b (x ∷ xs) h k = (o.step a b x h k.0, All-step a b xs h k.1)

  insert_by-Sorted : (x : A) (xs : List A) → Sorted less xs → Sorted less (insert_by less x xs)
  unfolding insert_by
  insert_by-Sorted x [] h = (tt, tt)
  insert_by-Sorted x (y ∷ ys) h = elim (Bool-cases (less y x)) [
    | inl e ↦ rw e (
      All-insert_by less (λ z. less z y ≡ false) x ys (o.asym y x e) h.0,
      insert_by-Sorted x ys h.1,
    )
    | inr e ↦ rw e ((e, All-step x y ys e h.0), h)
  ]

  pub sort_by-Sorted : (xs : List A) → Sorted less (sort_by less xs)
  unfolding sort_by
  sort_by-Sorted [] = tt
  sort_by-Sorted (x ∷ xs) = insert_by-Sorted x (sort_by less xs) (sort_by-Sorted xs)

module _ {ℓ} {A : Type ℓ} (less : A → A → Bool) (P : A → Type 0) where
  All-of-insert_by : (x : A) (xs : List A) → All P (insert_by less x xs) → P x × All P xs
  unfolding insert_by
  All-of-insert_by x [] h = (h.0, tt)
  All-of-insert_by x (y ∷ ys) h = elim (Bool-cases (less y x)) [
    | inl e ↦
        let k : All P (y ∷ insert_by less x ys) = rw (e, insert_by) at h in
        let (px, pys) = All-of-insert_by x ys k.1 in (px, (k.0, pys))
    | inr e ↦ let k : All P (x ∷ y ∷ ys) = rw (e, insert_by) at h in (k.0, k.1)
  ]

  -- What holds of the sorted list holds of the list.
  pub All-of-sort_by : (xs : List A) → All P (sort_by less xs) → All P xs
  unfolding sort_by
  All-of-sort_by [] h = tt
  All-of-sort_by (x ∷ xs) h =
      let (px, rest) = All-of-insert_by x (sort_by less xs) h in (px, All-of-sort_by xs rest)

module _ {ℓ} {A : Type ℓ} (less : A → A → Bool) where
  -- A list stays sorted when nothing in it comes after the new last element.
  pub Sorted-append_last :
      (xs : List A) (c : A)
      → Sorted less xs
      → All (λ k. less c k ≡ false) xs
      → Sorted less (xs ++ c ∷ [])
  Sorted-append_last [] c h k = (tt, tt)
  Sorted-append_last (x ∷ xs) c h k = (
    All-append (λ y. less y x ≡ false) xs (c ∷ []) h.0 (k.0, tt),
    Sorted-append_last xs c h.1 k.1,
  )
