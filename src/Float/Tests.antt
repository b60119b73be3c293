-- ===== src/Float/Tests.antt =====
-- Float arithmetic at values that a Python interpreter gives.
use soulmate.Prelude.{◌≡◌, refl, some, [], ◌∷◌}
use soulmate.Float.{one_float, ninety_percent, le_float}
use soulmate.Float.Arith.{
  nearest, round_size, neg_float, add_float, sub_float, mul_float, div_float, abs_float, sum_from,
  sum_floats, decimal, float_of_nat,
}

literal : decimal 9 1 ≡ ninety_percent
unfolding decimal round_size nearest ninety_percent
literal = refl

-- 0.1 + 0.2 is 0.30000000000000004.
adds : add_float (decimal 1 1) (decimal 2 1) ≡ decimal 30000000000000004 17
unfolding decimal round_size nearest add_float
adds = refl

-- 0.1 * 3 is 0.30000000000000004, and 1 / 3 is 0.3333333333333333.
multiplies : mul_float (decimal 1 1) (float_of_nat 3) ≡ decimal 30000000000000004 17
unfolding decimal round_size nearest mul_float float_of_nat
multiplies = refl

divides : div_float one_float (float_of_nat 3) ≡ some (decimal 3333333333333333 16)
unfolding decimal round_size nearest div_float float_of_nat one_float
divides = refl

-- sum([0.1] * 3) is 0.30000000000000004.
sums : sum_floats (decimal 1 1 ∷ decimal 1 1 ∷ decimal 1 1 ∷ []) ≡ decimal 30000000000000004 17
unfolding decimal round_size nearest add_float sub_float neg_float abs_float le_float sum_from
    sum_floats
sums = refl
