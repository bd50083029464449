-- ===== src/Prelude/Floats.antt =====
-- Floating point numbers, of which only what the code calls is used: float32 is `F`, float64 `D`.
use mathlib.Core.Path.{◌≡◌}
use mathlib.Core.Bool.{Bool, true}
use Prim.Native.Nat.{ℕ}

pub record Floats (F D : Type 0) : Type 0 where
  -- `math.NaN()` and `math.Inf(sign)`, for a sign that is not negative or negative
  pub nan : F
  pub inf : F
  pub negative_inf : F
  -- `x > 0`, `x < 0` and `math.IsInf(x, 1)`
  pub is_positive : F → Bool
  pub is_negative : F → Bool
  pub is_inf : F → Bool
  -- `x / 100`
  pub hundredth : F → F
  pub nought : D
  pub add : D → D → D
  pub mul : D → D → D
  -- the conversions of a float32, of a uint64, and of nanoseconds to seconds
  pub widen : F → D
  pub of_uint : ℕ → D
  pub seconds : ℕ → D
  -- `math.IsNaN`
  pub is_nan : D → Bool

-- The laws of IEEE 754 that are relied on. A NaN goes through every operation, and the positive
-- infinity is one number, which is positive.
pub record IsIeee {F D : Type 0} (f : Floats F D) : Type 0 where
  pub inf_unique : (x : F) → f.is_inf x ≡ true → x ≡ f.inf
  pub nan_widen : f.is_nan (f.widen (f.hundredth f.nan)) ≡ true
  pub nan_mul : (x y : D) → f.is_nan x ≡ true → f.is_nan (f.mul x y) ≡ true
  pub nan_add_left : (x y : D) → f.is_nan x ≡ true → f.is_nan (f.add x y) ≡ true
  pub nan_add_right : (x y : D) → f.is_nan y ≡ true → f.is_nan (f.add x y) ≡ true
