-- ===== src/Prelude/Int.antt =====
-- Signed integers over the native numbers: differences of clock readings.
use Prim.Native.Nat.{ℕ, ◌-◌}
use stocky_cognitive_runtime.Prelude.Tests.{ltb, leb, if◌then◌else◌}
use mathlib.Core.Bool.{Bool, false}

-- `negsuc n` is -(n + 1).
pub data ℤ : Type 0 where
  pos : ℕ → ℤ
  negsuc : ℕ → ℤ

-- a - b, as an integer.
abbrev pub sub_ℕ : ℕ → ℕ → ℤ
sub_ℕ a b = if leb b a then pos (a - b) else negsuc (b - a - 1)

-- z > n, for a number n.
abbrev pub gt_ℕ : ℤ → ℕ → Bool
gt_ℕ (pos k) n = ltb n k
gt_ℕ (negsuc k) n = false
