-- ===== src/Float/Bounds.antt =====
-- What `max(low, min(high, x))` is within, whatever float x is.
use soulmate.Prelude.{◌^◌, ◌-◌, ◌≡◌, refl, true, ◌&&◌, arith}
use soulmate.Float.{
  ℤ, pos, negsuc, Float, nan, num, lt_float, le_float, one_float, minus_one_float, in_signed_unit,
}
use soulmate.Float.Arith.{max_float, min_float}

abbrev pub clamp : Float → Float → Float → Float
clamp low high x = max_float low (min_float high x)

module _ (low high : ℤ) (ordered : le_float (num low) (num high) ≡ true) where
  clamp_within :
      (x : Float)
      → (le_float (num low) (clamp (num low) (num high) x)
          && le_float (clamp (num low) (num high) x) (num high))
        ≡ true
  unfolding le_float lt_float max_float min_float
  clamp_within nan = ground arith
  clamp_within (num a) = ground arith

pub clamp_signed_unit : (x : Float) → in_signed_unit (clamp minus_one_float one_float x) ≡ true
unfolding in_signed_unit minus_one_float one_float le_float
clamp_signed_unit x = clamp_within (negsuc (2 ^ 1074 - 1)) (pos (2 ^ 1074)) refl x
