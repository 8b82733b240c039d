-- ===== src/Base/Floats.antt =====
-- float64, as far as the program computes with it. The operations are IEEE's: no law of them is
-- assumed here.
use Prim.Native.Nat.{ℕ}
use mathlib.Core.Bool.{Bool}
use peekd.Base.Int.{ℤ}

pub record Floats : Type 1 where
  pub Float : Type 0
  -- The float nearest to `n / 10 ^ k`, for the constants.
  pub decimal : ℤ → ℕ → Float
  -- `float64(n)` of an integer.
  pub of_int : ℤ → Float
  pub neg : Float → Float
  pub sub : Float → Float → Float
  pub mul : Float → Float → Float
  pub div : Float → Float → Float
  -- `math.Pow`
  pub pow : Float → Float → Float
  -- `a >= b`
  pub ge : Float → Float → Bool
