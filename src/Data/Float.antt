-- ===== src/Data/Float.antt =====
-- Python's float, as far as the program compares floats. A finite double is a whole multiple of
-- 2 ^ -1074, and is given by that multiple; a comparison with nan is false.
use Prim.Native.Nat.{◌^◌}
use stocky_cognitive_runtime.Prelude.{ℕ, ◌*◌, Bool, true, false, not, leb}
use stocky_cognitive_runtime.Prelude.Int.{ℤ, pos, negsuc}

pub data Float : Type 0 where
  finite : ℤ → Float
  infinite neg_infinite nan : Float

abbrev pub leb_ℤ : ℤ → ℤ → Bool
leb_ℤ (pos a) (pos b) = leb a b
leb_ℤ (pos a) (negsuc b) = false
leb_ℤ (negsuc a) (pos b) = true
leb_ℤ (negsuc a) (negsuc b) = leb b a

-- `a <= b`
abbrev pub leb_float : Float → Float → Bool
leb_float (finite a) (finite b) = leb_ℤ a b
leb_float (finite a) infinite = true
leb_float infinite infinite = true
leb_float neg_infinite (finite b) = true
leb_float neg_infinite infinite = true
leb_float neg_infinite neg_infinite = true
leb_float _ _ = false

-- `a < b`
abbrev pub ltb_float : Float → Float → Bool
ltb_float (finite a) (finite b) = not (leb_ℤ b a)
ltb_float (finite a) infinite = true
ltb_float neg_infinite (finite b) = true
ltb_float neg_infinite infinite = true
ltb_float _ _ = false

-- 1.0, 0.5 and 0.7; the double nearest to 0.7 is 6305039478318694 * 2 ^ -53.
unit : ℕ
unit = 2 ^ 1074

unfoldable pub one : Float
unfolding unit
one = finite (pos unit)

unfoldable pub seven_tenths : Float
seven_tenths = finite (pos (6305039478318694 * 2 ^ 1021))

abbrev pub zero_float : Float
zero_float = finite (pos 0)
