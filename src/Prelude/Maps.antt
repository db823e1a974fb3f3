-- ===== src/Prelude/Maps.antt =====
-- Go's maps as association lists and its `map[K]bool` sets as lists of keys, for keys with a
-- decidable equality. Iteration order is the order of first insertion: the program sorts what it
-- collects from a map.
use Prim.Native.Nat.{ℕ}
use Prim.Native.String.{String}
use mathlib.Core.Path.{◌≡◌, refl}
use mathlib.Core.Bool.{Bool, true, false, ◌||◌}
use mathlib.Core.Logic.{◌↔◌}
use mathlib.Core.Option.{Option, none, some}
use mathlib.Core.List.{List, [], ◌∷◌, ◌++◌}
use native.Mathlib.Omega.{arith}
use text.Mathlib.Text.{◌==◌ as str_eq}
use text.Mathlib.TextEquality.{eq_iff}
use px.Prelude.Tests.{◌==◌, ==_iff, if◌then◌else◌}
use px.Prelude.Int.{ℤ, eqb_ℤ, eqb_ℤ-iff}

pub record Key {ℓ} (A : Type ℓ) : Type ℓ where
  pub agrees : A → A → Bool
  pub agrees_iff : (a b : A) → (agrees a b ≡ true) ↔ (a ≡ b)

-- Go's comparison of two keys of one type.
abbrev pub same {ℓ} : {A : Type ℓ} ⦃e : Key A⦄ → A → A → Bool
same ⦃e⦄ = e.agrees

pub same_iff {ℓ} : {A : Type ℓ} ⦃e : Key A⦄ (a b : A) → (same a b ≡ true) ↔ (a ≡ b)
same_iff ⦃e⦄ = e.agrees_iff

abbrev num_eq : ℕ → ℕ → Bool
num_eq a b = a == b

instance abbrev pub nat_eq : Key ℕ
nat_eq = record { agrees = num_eq; agrees_iff = ==_iff }

instance abbrev pub int_eq : Key ℤ
int_eq = record { agrees = eqb_ℤ; agrees_iff = eqb_ℤ-iff }

instance abbrev pub string_eq : Key String
string_eq = record { agrees = str_eq; agrees_iff = eq_iff }

module _ {ℓ} {K : Type ℓ} ⦃e : Key K⦄ where
  -- `set[k]`
  unfoldable pub contains : K → List K → Bool
  contains k [] = false
  contains k (x ∷ xs) = same k x || contains k xs

  -- `set[k] = true`
  unfoldable pub add_key : K → List K → List K
  add_key k [] = k ∷ []
  add_key k (x ∷ xs) = let rest = x ∷ add_key k xs in if same k x then x ∷ xs else rest

  -- No key stands twice.
  abbrev pub Distinct : List K → Type 0
  Distinct [] = Unit
  Distinct (x ∷ xs) = (contains x xs ≡ false) × Distinct xs

  pub contains-add_key :
      (j k : K) (xs : List K) → contains j (add_key k xs) ≡ (same j k || contains j xs)
  unfolding contains add_key
  contains-add_key j k [] = refl
  contains-add_key j k (x ∷ xs) =
      ground (arith, contains-add_key j k xs, e.agrees_iff k x, e.agrees_iff j x, e.agrees_iff j k)

  pub add_key-Distinct : (k : K) (xs : List K) → Distinct xs → Distinct (add_key k xs)
  unfolding contains add_key
  add_key-Distinct k [] h = (refl, tt)
  add_key-Distinct k (x ∷ xs) h = ground (
    arith,
    add_key-Distinct k xs h.1,
    contains-add_key x k xs,
    e.agrees_iff k x,
    e.agrees_iff x k,
  )

  pub add_key_if-Distinct :
      (b : Bool) (k : K) (xs : List K) → Distinct xs → Distinct (if b then add_key k xs else xs)
  add_key_if-Distinct true k xs h = add_key-Distinct k xs h
  add_key_if-Distinct false k xs h = h

  pub contains-append :
      (k : K) (xs ys : List K) → contains k (xs ++ ys) ≡ (contains k xs || contains k ys)
  unfolding contains
  contains-append k [] ys = refl
  contains-append k (x ∷ xs) ys = ground (arith, contains-append k xs ys)

module _ {ℓ κ} {K : Type ℓ} {V : Type κ} ⦃e : Key K⦄ where
  -- `m[k]`
  unfoldable pub lookup : K → List (K × V) → Option V
  lookup k [] = none
  lookup k ((j, v) ∷ m) = if same k j then some v else lookup k m

  -- `m[k] = v`
  unfoldable pub insert : K → V → List (K × V) → List (K × V)
  insert k v [] = (k, v) ∷ []
  insert k v ((j, w) ∷ m) = if same k j then (j, v) ∷ m else (j, w) ∷ insert k v m

  -- `delete(m, k)`
  unfoldable pub remove : K → List (K × V) → List (K × V)
  remove k [] = []
  remove k ((j, w) ∷ m) = let rest = remove k m in if same k j then rest else (j, w) ∷ rest

  abbrev pub keys : List (K × V) → List K
  keys [] = []
  keys ((j, v) ∷ m) = j ∷ keys m

  pub lookup-insert :
      (k j : K) (v : V) (m : List (K × V))
      → lookup j (insert k v m) ≡ (if same j k then some v else lookup j m)
  unfolding lookup insert
  lookup-insert k j v [] = refl
  lookup-insert k j v ((i, w) ∷ m) =
      ground (arith, lookup-insert k j v m, e.agrees_iff k i, e.agrees_iff j i, e.agrees_iff j k)

  pub lookup-remove :
      (k j : K) (m : List (K × V)) → lookup j (remove k m) ≡ (if same j k then none else lookup j m)
  unfolding lookup remove
  lookup-remove k j [] = ground arith
  lookup-remove k j ((i, w) ∷ m) =
      ground (arith, lookup-remove k j m, e.agrees_iff k i, e.agrees_iff j i, e.agrees_iff j k)

  pub contains-keys :
      (k : K) (m : List (K × V)) → (contains k (keys m) ≡ false) ↔ (lookup k m ≡ none)
  unfolding contains lookup
  contains-keys k [] = ((λ _. refl), (λ _. refl))
  contains-keys k ((i, w) ∷ m) = ground (arith, contains-keys k m)

pub same_refl {ℓ} : {A : Type ℓ} ⦃e : Key A⦄ (a : A) → same a a ≡ true
same_refl ⦃e⦄ a = (e.agrees_iff a a).1 refl
