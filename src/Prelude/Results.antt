-- ===== src/Prelude/Results.antt =====
-- A Go function that returns `(T, error)`: a value, or the text of the error.
use Prim.Native.String.{String, ◌++◌}
use mathlib.Core.Path.{◌≡◌, refl}
use mathlib.Core.Bool.{Bool, true, false}
use mathlib.Core.Logic.{◌⊎◌, inl, inr}

pub data Result {ℓ} (A : Type ℓ) : Type ℓ where
  ok : A → Result A
  err : String → Result A

-- `if bad { return ..., errors.New(e) }`
abbrev pub refuse_if : Bool → String → Result (Unit {0})
refuse_if false message = ok tt
refuse_if true message = err message

-- `fmt.Errorf("<context>%w", err)`
abbrev pub wrap_error {ℓ} : {A : Type ℓ} → String → Result A → Result A
wrap_error context (err message) = err (context ++ message)
wrap_error context (ok value) = ok value

-- `value, err := first; if err != nil { return ..., err }`, and what follows.
infixl 5 ◌>>=◌
abbrev pub ◌>>=◌ {ℓ κ} : {A : Type ℓ} {B : Type κ} → Result A → (A → Result B) → Result B
err message >>= next = err message
ok value >>= next = next value

infixl 5 ◌>>◌
abbrev pub ◌>>◌ {ℓ} : {B : Type ℓ} → Result (Unit {0}) → Result B → Result B
first >> second = first >>= λ done. second

pub Result-cases {ℓ} :
    {A : Type ℓ} (r : Result A) → ((a : A) × (r ≡ ok a)) ⊎ ((e : String) × (r ≡ err e))
Result-cases (ok a) = inl (a, refl)
Result-cases (err e) = inr (e, refl)
