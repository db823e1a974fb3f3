-- ===== src/Prelude/TextOrder.antt =====
-- The order of texts is total, so a sort of texts has one result.
use Prim.Native.Nat.{compare as compare_ℕ}
use Prim.Native.Char.{Char, code}
use Prim.Native.String.{String, compare, then}
use Prim.Native.String.compare as C
use mathlib.Core.Path.{◌≡◌, refl, ap₂}
use mathlib.Core.Bool.{true, false}
use native.Mathlib.Omega.{arith}
use text.Mathlib.TextEquality.{Char-path}
use px.Prelude.Text.{str_lt}
use px.Prelude.Sort.{IsOrder}

compare-cons :
    (c d : Char) (s t : String)
    → compare (String.◌∷◌ c s) (String.◌∷◌ d t) ≡ then (compare_ℕ (code c) (code d)) (compare s t)
compare-cons c d s t = C.cons-cons c d s t

str_lt_asym : (s t : String) → str_lt s t ≡ true → str_lt t s ≡ false
str_lt_asym String.[] String.[] h = cc
str_lt_asym String.[] (String.◌∷◌ d t) h = ground (arith, C.cons-nil d t)
str_lt_asym (String.◌∷◌ c s) String.[] h = ground (arith, C.cons-nil c s)
str_lt_asym (String.◌∷◌ c s) (String.◌∷◌ d t) h =
    ground (arith, compare-cons c d s t, compare-cons d c t s, str_lt_asym s t)

not_lt_nil : (s : String) → str_lt s "" ≡ false
not_lt_nil String.[] = refl
not_lt_nil (String.◌∷◌ c s) = ground (arith, C.cons-nil c s)

str_lt_step : (a b c : String) → str_lt b a ≡ false → str_lt c b ≡ false → str_lt c a ≡ false
str_lt_step String.[] b c h k = not_lt_nil c
str_lt_step (String.◌∷◌ x a) String.[] c h k = ground (arith, C.nil-cons x a)
str_lt_step (String.◌∷◌ x a) (String.◌∷◌ y b) String.[] h k = ground (arith, C.nil-cons y b)
str_lt_step (String.◌∷◌ x a) (String.◌∷◌ y b) (String.◌∷◌ z c) h k =
    ground
      (arith, compare-cons y x b a, compare-cons z y c b, compare-cons z x c a, str_lt_step a b c)

pub str_lt-IsOrder : IsOrder str_lt
str_lt-IsOrder = record { asym = str_lt_asym; step = str_lt_step }

-- Two texts of which neither comes first are one.
pub str_lt_antisym : (s t : String) → str_lt s t ≡ false → str_lt t s ≡ false → s ≡ t
str_lt_antisym String.[] String.[] h k = refl
str_lt_antisym String.[] (String.◌∷◌ d t) h k = ground (arith, C.nil-cons d t)
str_lt_antisym (String.◌∷◌ c s) String.[] h k = ground (arith, C.nil-cons c s)
str_lt_antisym (String.◌∷◌ c s) (String.◌∷◌ d t) h k =
    ap₂ String.◌∷◌ (Char-path c d (ground (arith, compare-cons c d s t, compare-cons d c t s))) (
      str_lt_antisym s t (ground (arith, compare-cons c d s t, compare-cons d c t s))
        (ground (arith, compare-cons c d s t, compare-cons d c t s)))
