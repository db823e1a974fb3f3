-- ===== src/Prelude/SetSort.antt =====
-- Sorting the keys of a set: the same keys, each once.
use mathlib.Core.Path.{◌≡◌, refl, ap, ◌∙◌}
use mathlib.Core.Bool.{Bool, false, ◌||◌}
use mathlib.Core.List.{List, [], ◌∷◌}
use native.Mathlib.Omega.{arith}
use px.Prelude.Sort.{insert_by, sort_by}
use px.Prelude.Maps.{Key, same, contains, Distinct}

module _ {ℓ} {K : Type ℓ} ⦃e : Key K⦄ (less : K → K → Bool) where
  contains-insert_by :
      (k x : K) (xs : List K) → contains k (insert_by less x xs) ≡ (same k x || contains k xs)
  unfolding insert_by contains
  contains-insert_by k x [] = refl
  contains-insert_by k x (y ∷ ys) = ground (arith, contains-insert_by k x ys)

  pub contains-sort_by : (k : K) (xs : List K) → contains k (sort_by less xs) ≡ contains k xs
  unfolding sort_by contains
  contains-sort_by k [] = refl
  contains-sort_by k (x ∷ xs) =
      contains-insert_by k x (sort_by less xs) ∙ ap (λ b. same k x || b) (contains-sort_by k xs)

  insert_by-Distinct :
      (x : K) (xs : List K) → contains x xs ≡ false → Distinct xs → Distinct (insert_by less x xs)
  unfolding insert_by contains
  insert_by-Distinct x [] h d = (refl, tt)
  insert_by-Distinct x (y ∷ ys) h d = ground (
    arith,
    insert_by-Distinct x ys,
    contains-insert_by y x ys,
    e.agrees_iff x y,
    e.agrees_iff y x,
  )

  pub sort_by-Distinct : (xs : List K) → Distinct xs → Distinct (sort_by less xs)
  unfolding sort_by
  sort_by-Distinct [] d = tt
  sort_by-Distinct (x ∷ xs) d =
      insert_by-Distinct x (sort_by less xs) (contains-sort_by x xs ∙ d.0) (sort_by-Distinct xs d.1)
