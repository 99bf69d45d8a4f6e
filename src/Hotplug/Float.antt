-- ===== src/Hotplug/Float.antt =====
-- The floating-point numbers that the controllers compute percentages with, as an interface: IEEE
-- arithmetic is Go's. No law is assumed of it.
use spinbox.Common.{Bool}
use spinbox.Common.Int.{ℤ}

pub record Float64 : Type 1 where
  pub F : Type 0
  -- `float64(n)` and `int64(x)`.
  pub of_int : ℤ → F
  pub to_int : F → ℤ
  pub mul : F → F → F
  pub div : F → F → F
  pub leb : F → F → Bool
  pub ltb : F → F → Bool
