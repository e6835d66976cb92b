-- ===== src/Base/Floats.antt =====
-- Python's floats: an IEEE 754 binary64 number is its bit pattern. The comparisons are written out;
-- the arithmetic of the processor is a parameter, `FloatOps`.
use Prim.Native.Nat.{ℕ, ◌+◌, ◌-◌, ◌%◌}
use mathlib.Core.Path.{◌≡◌}
use mathlib.Core.List.{List}
use mathlib.Core.Bool.{Bool, true, false, not, ◌&&◌}
use native.Mathlib.Omega.{arith}
use aiops_control_lab.Base.Tests.{ltb, leb, nat_eq, if◌then◌else◌}

abbrev pub Float : Type 0
Float = ℕ

abbrev pub sign_bit : ℕ
sign_bit = 0x8000_0000_0000_0000

-- `1.0`
abbrev pub float_one : Float
float_one = 0x3ff0_0000_0000_0000

abbrev pub infinity : Float
infinity = 0x7ff0_0000_0000_0000

abbrev pub magnitude : Float → ℕ
magnitude x = x % 0x8000_0000_0000_0000

abbrev pub is_nan : Float → Bool
is_nan x = ltb 0x7ff0_0000_0000_0000 (magnitude x)

-- A number that grows with the float; both zeros have the same.
abbrev pub rank : Float → ℕ
rank x =
    if leb 0x8000_0000_0000_0000 x
    then 0x8000_0000_0000_0000 - magnitude x
    else 0x8000_0000_0000_0000 + magnitude x

-- A comparison with a NaN is false.
unfoldable pub float_lt : Float → Float → Bool
float_lt x y = not (is_nan x) && not (is_nan y) && ltb (rank x) (rank y)

unfoldable pub float_le : Float → Float → Bool
float_le x y = not (is_nan x) && not (is_nan y) && leb (rank x) (rank y)

unfoldable pub float_eq : Float → Float → Bool
float_eq x y = not (is_nan x) && not (is_nan y) && nat_eq (rank x) (rank y)

pub record FloatOps : Type 0 where
  pub add : Float → Float → Float
  pub sub : Float → Float → Float
  pub mul : Float → Float → Float
  pub div : Float → Float → Float
  pub of_int : ℕ → Float
  -- `sum(xs)` of a list of floats
  pub sum : List Float → Float
  -- `m / n` of two ints, rounded once
  pub quotient : ℕ → ℕ → Float
  -- `f"{x:.2f}"`
  pub two_places : Float → Prim.Native.String.String

-- `max(x, y)` and `min(x, y)`
abbrev pub float_max : Float → Float → Float
float_max x y = if float_lt x y then y else x

abbrev pub float_min : Float → Float → Float
float_min x y = if float_lt y x then y else x

-- Of two floats that are no NaN, one is less than the other or it is at least as large.
pub float_lt_total :
    (x y : Float) → is_nan x ≡ false → is_nan y ≡ false → float_lt x y ≡ not (float_le y x)
unfolding float_lt float_le
float_lt_total x y p q = ground arith

pub float_lt_asym : (x y : Float) → float_lt x y ≡ true → float_lt y x ≡ false
unfolding float_lt
float_lt_asym x y h = ground (arith, h)
