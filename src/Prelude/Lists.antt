-- ===== src/Prelude/Lists.antt =====
-- Lists measured by native numbers, Boolean folds over lists, and predicates by recursion.
use Prim.Native.Nat.{ℕ, zero, suc, ◌+◌}
use mathlib.Core.Path.{◌≡◌, refl}
use mathlib.Core.Logic.{◌⊎◌, inl, inr}
use mathlib.Core.Bool.{Bool, false, ◌||◌}
use mathlib.Core.List.{List, [], ◌∷◌, ◌++◌}
use native.Mathlib.Omega.{arith}
use px.Prelude.Tests.{if◌then◌else◌}

module _ {ℓ} {A : Type ℓ} where
  abbrev pub length : List A → ℕ
  length [] = 0
  length (x ∷ xs) = suc (length xs)

  abbrev pub take : ℕ → List A → List A
  take zero xs = []
  take (suc n) [] = []
  take (suc n) (x ∷ xs) = x ∷ take n xs

  abbrev pub drop : ℕ → List A → List A
  drop zero xs = xs
  drop (suc n) [] = []
  drop (suc n) (x ∷ xs) = drop n xs

  -- The elements that pass a test, in order.
  unfoldable pub keep_if : (A → Bool) → List A → List A
  keep_if p [] = []
  keep_if p (x ∷ xs) = let rest = keep_if p xs in if p x then x ∷ rest else rest

  -- Some element passes a test.
  unfoldable pub any_of : (A → Bool) → List A → Bool
  any_of p [] = false
  any_of p (x ∷ xs) = p x || any_of p xs

  pub length-append : (xs ys : List A) → length (xs ++ ys) ≡ length xs + length ys
  length-append [] ys = omega arith
  length-append (x ∷ xs) ys = omega (arith, length-append xs ys)

  pub any_of-append :
      (p : A → Bool) (xs ys : List A) → any_of p (xs ++ ys) ≡ (any_of p xs || any_of p ys)
  unfolding any_of
  any_of-append p [] ys = refl
  any_of-append p (x ∷ xs) ys = ground (arith, any_of-append p xs ys)

  pub any_of_ext :
      (p q : A → Bool) → ((x : A) → p x ≡ q x) → (xs : List A) → any_of p xs ≡ any_of q xs
  unfolding any_of
  any_of_ext p q h [] = refl
  any_of_ext p q h (x ∷ xs) = ground (arith, h x, any_of_ext p q h xs)

  pub keep_if-append :
      (p : A → Bool) (xs ys : List A) → keep_if p (xs ++ ys) ≡ keep_if p xs ++ keep_if p ys
  unfolding keep_if
  keep_if-append p [] ys = refl
  keep_if-append p (x ∷ xs) ys = ground (arith, keep_if-append p xs ys)

-- Every element satisfies `P`.
abbrev pub All {ℓ} : {A : Type ℓ} → (A → Type 0) → List A → Type 0
All P [] = Unit
All P (x ∷ xs) = P x × All P xs

-- Some element satisfies `P`.
abbrev pub Some {ℓ} : {A : Type ℓ} → (A → Type 0) → List A → Type 0
Some P [] = ⊥
Some P (x ∷ xs) = P x ⊎ Some P xs

module _ {ℓ} {A : Type ℓ} (P : A → Type 0) where
  pub All-append : (xs ys : List A) → All P xs → All P ys → All P (xs ++ ys)
  All-append [] ys h k = k
  All-append (x ∷ xs) ys h k = (h.0, All-append xs ys h.1 k)

  pub Some-append_right : (xs ys : List A) → Some P ys → Some P (xs ++ ys)
  Some-append_right [] ys k = k
  Some-append_right (x ∷ xs) ys k = inr (Some-append_right xs ys k)

  pub Some-append_left : (xs ys : List A) → Some P xs → Some P (xs ++ ys)
  Some-append_left [] ys h = elim h [ ]
  Some-append_left (x ∷ xs) ys h = elim h [ inl a ↦ inl a | inr b ↦ inr (Some-append_left xs ys b) ]

module _ {ℓ} {A : Type ℓ} {P Q : A → Type 0} (f : (a : A) → P a → Q a) where
  pub All-map : (xs : List A) → All P xs → All Q xs
  All-map [] h = tt
  All-map (x ∷ xs) h = (f x h.0, All-map xs h.1)

  pub Some-map : (xs : List A) → Some P xs → Some Q xs
  Some-map [] h = elim h [ ]
  Some-map (x ∷ xs) h = elim h [ inl a ↦ inl (f x a) | inr b ↦ inr (Some-map xs b) ]
