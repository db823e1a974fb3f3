-- ===== src/Prelude/Numbers.antt =====
-- `strconv.ParseInt(s, 10, 64)` and `strconv.Atoi`: a sign or none, digits, and the range of an int64.
use Prim.Native.Nat.{ℕ, ◌+◌, ◌*◌, ◌-◌, ◌^◌}
use Prim.Native.Char.{code}
use Prim.Native.String.{String}
use mathlib.Core.Bool.{◌&&◌}
use mathlib.Core.Option.{Option, none, some}
use px.Prelude.Tests.{leb, ◌==◌, if◌then◌else◌}
use px.Prelude.Int.{ℤ, pos, neg}

-- The number that digits write after `n`; none for any other character.
unfoldable pub digits_value : ℕ → String → Option ℕ
digits_value n String.[] = some n
digits_value n (String.◌∷◌ c s) =
    let rest = digits_value (n * 10 + (code c - 48)) s in
    if leb 48 (code c) && leb (code c) 57 then rest else none

-- At least one digit, up to the bound.
abbrev bounded_digits : ℕ → String → Option ℕ
bounded_digits bound String.[] = none
bounded_digits bound (String.◌∷◌ c s) = elim (digits_value 0 (String.◌∷◌ c s)) [
  | none ↦ none
  | some n ↦ if leb n bound then some n else none
]

abbrev positive : Option ℕ → Option ℤ
positive none = none
positive (some n) = some (pos n)

abbrev negative : Option ℕ → Option ℤ
negative none = none
negative (some n) = some (neg (pos n))

unfoldable pub parse_int : String → Option ℤ
parse_int String.[] = none
parse_int (String.◌∷◌ c s) =
    if code c == 45
    then negative (bounded_digits (2 ^ 63) s)
    else (if code c == 43
        then positive (bounded_digits (2 ^ 63 - 1) s)
        else positive (bounded_digits (2 ^ 63 - 1) (String.◌∷◌ c s)))
