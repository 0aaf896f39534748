-- ===== src/Float.antt =====
-- The operations of float64 that the source uses, as a parameter: a float64 is its bit pattern
-- (Task.Float64), and the arithmetic on it is the machine's.
use background_tasks.Base.{ℕ, ℤ, Bool}
use background_tasks.Task.{Float64}

pub record FloatOps : Type 0 where
  pub lt : Float64 → Float64 → Bool
  pub eq : Float64 → Float64 → Bool
  pub add : Float64 → Float64 → Float64
  pub sub : Float64 → Float64 → Float64
  pub mul : Float64 → Float64 → Float64
  pub div : Float64 → Float64 → Float64
  pub of_int : ℤ → Float64
  pub to_int : Float64 → ℤ
  pub lit : ℕ → ℕ → Float64  -- `lit m e` is the literal m / 10^e
