-- ===== src/Billing/Stripe/Header.antt =====
-- internal/hosted/billing/stripe.go: what a signature header says, by the texts of its parts.
use Prim.Native.Char.{code}
use Prim.Native.String.{◌++◌ as concat}
use text.Mathlib.TextEquality.{Char-path}
use text.Mathlib.TextLemmas.{nil-append, cons-append}
use px.Prelude.{
  ◌≡◌, refl, ap, sym, ◌∙◌, ◌⊎◌, inl, inr, String, Bool, true, some, List, [], ◌∷◌, arith,
  Option-cases, Bool-cases, All, Some, ◌==◌,
}
use px.Prelude.Int.{ℤ}
use px.Prelude.Text.{trim_space}
use px.Prelude.Numbers.{parse_int}
use px.Billing.Stripe.{cut_at_equals}

-- The part gives a value to the timestamp, or to a signature.
abbrev pub IsStamp : String → String → Type 0
IsStamp part value = trim_space part ≡ concat "t=" value

abbrev pub IsCode : String → String → Type 0
IsCode part value = trim_space part ≡ concat "v1=" value

abbrev pub NoStamp : List String → Type 0
NoStamp parts = All (λ p. (value : String) → ¬ IsStamp p value) parts

-- Every value of a timestamp is an integer.
abbrev pub AllNumbers : List String → Type 0
AllNumbers parts =
    All (λ p. (value : String) → IsStamp p value → (n : ℤ) × (parse_int value ≡ some n)) parts

-- The last value of a timestamp is this integer.
unfoldable pub LastStamp : ℤ → List String → Type 0
LastStamp n [] = ⊥
LastStamp n (p ∷ ps) =
    LastStamp n ps
    ⊎ (NoStamp ps × ((value : String) × IsStamp p value × (parse_int value ≡ some n)))

-- The value of some signature passes.
abbrev pub HasCode : (String → Bool) → List String → Type 0
HasCode passes parts = Some (λ p. (value : String) × IsCode p value × (passes value ≡ true)) parts

pub cut_at_equals-concat :
    (s key value : String)
    → cut_at_equals s ≡ some (key, value)
    → s ≡ concat key (String.◌∷◌ "=" value)
unfolding cut_at_equals
cut_at_equals-concat String.[] key value h = absurd (ground arith)
cut_at_equals-concat (String.◌∷◌ c s) key value h = elim (Bool-cases (code c == 61)) [
  | inl e ↦
      let equals : c ≡ "=" = Char-path c "=" (ground (arith, e)) in
      let empty : String.[] ≡ key = ground (arith, h, e) in
      let same : s ≡ value = ground (arith, h, e) in
      rw⁻¹ (empty, same) (rw (nil-append (String.◌∷◌ "=" s), equals) refl)
  | inr e ↦ elim (Option-cases (cut_at_equals s)) [
    | inl n ↦ absurd (ground (arith, h, e, n))
    | inr ((k, v), n) ↦
        let longer : String.◌∷◌ c k ≡ key = ground (arith, h, e, n) in
        let same : v ≡ value = ground (arith, h, e, n) in
        rw⁻¹ (longer, same)
          (rw (cons-append c k (String.◌∷◌ "=" v))
            (ap (String.◌∷◌ c) (cut_at_equals-concat s k v n)))
  ]
]

stamp_text : (value : String) → concat "t=" value ≡ String.◌∷◌ "t" (String.◌∷◌ "=" value)
stamp_text value =
    cons-append "t" "=" value
    ∙ ap (String.◌∷◌ "t") (cons-append "=" "" value ∙ ap (String.◌∷◌ "=") (nil-append value))

code_text :
    (value : String) → concat "v1=" value ≡ String.◌∷◌ "v" (String.◌∷◌ "1" (String.◌∷◌ "=" value))
code_text value =
    cons-append "v" "1=" value
    ∙ ap (String.◌∷◌ "v") (
        cons-append "1" "=" value
        ∙ ap (String.◌∷◌ "1") (cons-append "=" "" value ∙ ap (String.◌∷◌ "=") (nil-append value)))

pub keyed_text :
    (key value : String) → key ≡ "t" → concat key (String.◌∷◌ "=" value) ≡ concat "t=" value
keyed_text key value e = rw e (
    cons-append "t" "" (String.◌∷◌ "=" value)
    ∙ ap (String.◌∷◌ "t") (nil-append (String.◌∷◌ "=" value))
    ∙ sym (stamp_text value))

pub coded_text :
    (key value : String) → key ≡ "v1" → concat key (String.◌∷◌ "=" value) ≡ concat "v1=" value
coded_text key value e = rw e (
    cons-append "v" "1" (String.◌∷◌ "=" value)
    ∙ ap (String.◌∷◌ "v") (
        cons-append "1" "" (String.◌∷◌ "=" value)
        ∙ ap (String.◌∷◌ "1") (nil-append (String.◌∷◌ "=" value)))
    ∙ sym (code_text value))

pub cut-stamp : (s value : String) → s ≡ concat "t=" value → cut_at_equals s ≡ some ("t", value)
unfolding cut_at_equals
cut-stamp s value h = rw (h, stamp_text value) refl

pub cut-code : (s value : String) → s ≡ concat "v1=" value → cut_at_equals s ≡ some ("v1", value)
unfolding cut_at_equals
cut-code s value h = rw (h, code_text value) refl
