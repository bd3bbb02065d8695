-- ===== src/Common/Integers.antt =====
-- Integers over the native numbers, for Go's `int` where it may be negative.
use Prim.Native.Nat.{ℕ, ◌-◌}
use telco_helm_charts.Common.Tests.{ltb, if◌then◌else◌}

pub data ℤ : Type 0 where
  pos : ℕ → ℤ
  negsuc : ℕ → ℤ

-- The difference of two numbers.
abbrev pub difference : ℕ → ℕ → ℤ
difference a b = if ltb a b then negsuc (b - a - 1) else pos (a - b)
