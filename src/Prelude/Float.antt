-- ===== src/Prelude/Float.antt =====
-- Finite float64 values, exactly: every one is an integer multiple of 2^-1074, and stands here as that
-- integer. Comparisons are those of the integers. The program's decoders let no NaN or infinity in,
-- since JSON has none.
use Prim.Native.Nat.{◌*◌, ◌^◌}
use mathlib.Core.Bool.{Bool}
use px.Prelude.Int.{ℤ, pos, ltb_ℤ}

abbrev pub Float : Type 0
Float = ℤ

-- The literals of the program: 0, 1, .5, and the float64 next to 3/5.
abbrev pub zero_f : Float
zero_f = pos 0

unfoldable pub one_f : Float
one_f = pos (2 ^ 1074)

unfoldable pub half_f : Float
half_f = pos (2 ^ 1073)

unfoldable pub three_fifths_f : Float
three_fifths_f = pos (5404319552844595 * 2 ^ 1021)

-- `a < b` on floats.
abbrev pub ltb_f : Float → Float → Bool
ltb_f = ltb_ℤ
