-- ===== src/Float.antt =====
-- Python floats and their comparison; their arithmetic is in Float.Arith. A finite float is a
-- multiple of 2 ^ -1074, and `num x` stands for x * 2 ^ -1074; the infinities are numbers past the
-- largest finite float. Each comparison with `nan` is false.
pub mod Arith
pub mod Bounds
pub mod Rounding
mod Tests
use soulmate.Prelude.{ℕ, suc, ◌+◌, ◌-◌, ◌*◌, ◌^◌, ◌≡◌, Bool, true, false, ◌&&◌, ltb, leb, arith}

-- `negsuc n` is -(n + 1)
pub data ℤ : Type 0 where
  pos : ℕ → ℤ
  negsuc : ℕ → ℤ

abbrev pub pos_part : ℤ → ℕ
pos_part (pos n) = n
pos_part (negsuc n) = 0

abbrev pub neg_part : ℤ → ℕ
neg_part (pos n) = 0
neg_part (negsuc n) = suc n

pub data Float : Type 0 where
  nan : Float
  num : ℤ → Float

-- `a < b`
unfoldable pub lt_float : Float → Float → Bool
lt_float nan b = false
lt_float (num a) nan = false
lt_float (num a) (num b) = ltb (pos_part a + neg_part b) (pos_part b + neg_part a)

-- `a <= b`
unfoldable pub le_float : Float → Float → Bool
le_float nan b = false
le_float (num a) nan = false
le_float (num a) (num b) = leb (pos_part a + neg_part b) (pos_part b + neg_part a)

abbrev pub zero_float : Float
zero_float = num (pos 0)

-- 1.0
unfoldable pub one_float : Float
one_float = num (pos (2 ^ 1074))

-- -1.0
unfoldable pub minus_one_float : Float
minus_one_float = num (negsuc (2 ^ 1074 - 1))

-- 0.90 and 0.95 as the nearest floats, which have 53 binary digits after the point
unfoldable pub ninety_percent : Float
ninety_percent = num (pos (8106479329266893 * 2 ^ 1021))

unfoldable pub ninety_five_percent : Float
ninety_five_percent = num (pos (8556839292003942 * 2 ^ 1021))

-- `0.0 <= x <= 1.0`
unfoldable pub in_unit : Float → Bool
in_unit x = le_float zero_float x && le_float x one_float

-- `-1.0 <= x <= 1.0`
unfoldable pub in_signed_unit : Float → Bool
in_signed_unit x = le_float minus_one_float x && le_float x one_float

pub le_float_trans :
    (a b c : Float) → le_float a b ≡ true → le_float b c ≡ true → le_float a c ≡ true
unfolding le_float
le_float_trans nan b c h k = h
le_float_trans (num a) nan c h k = cc
le_float_trans (num a) (num b) nan h k = k
le_float_trans (num a) (num b) (num c) h k = ground arith

-- A failed `<` between floats of which neither is `nan` is `<=` the other way round.
pub le_of_not_lt :
    (a b : Float)
    → lt_float a b ≡ false
    → in_unit a ≡ true
    → le_float b b ≡ true
    → le_float b a ≡ true
unfolding lt_float in_unit le_float
le_of_not_lt nan b h u v = cc
le_of_not_lt (num a) nan h u v = v
le_of_not_lt (num a) (num b) h u v = ground arith

pub in_unit-le_refl : (a : Float) → in_unit a ≡ true → le_float a a ≡ true
unfolding in_unit le_float
in_unit-le_refl nan h = h
in_unit-le_refl (num a) h = ground arith
