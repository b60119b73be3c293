-- ===== src/Float/Rounding.antt =====
-- A quotient of at least one unit does not round to zero.
use soulmate.Prelude.{
  ℕ, ◌+◌, ◌*◌, ◌/◌, ◌^◌, ◌≤◌, ◌≡◌, refl, Bool, true, false, List, [], ◌∷◌, inl, inr, Bool-cases,
  ltb, leb, leb→le, eqb, if◌then◌else◌, arith, some,
}
use native.Mathlib.Nat.{le-div_iff_mul-le, one-le-pow, one-le-mul, pow-suc, div-one}
use soulmate.Float.{pos, Float, nan, num, zero_float}
use soulmate.Float.Arith.{
  shifts, shift_from, unit_of, nearest, round_size, infinity_size, float_of_nat, div_float,
}

shift_fits :
    (digits : ℕ) (ks : List ℕ) (n e : ℕ)
    → 2 ^ digits ≤ n / 2 ^ e
    → 2 ^ digits ≤ n / 2 ^ shift_from digits ks n e
shift_fits digits [] n e h = h
shift_fits digits (k ∷ ks) n e h = elim (Bool-cases (leb (2 ^ digits) (n / 2 ^ (e + k)))) [
  | inl more ↦ rw more (shift_fits digits ks n (e + k) (leb→le _ _ more))
  | inr enough ↦ rw enough (shift_fits digits ks n e h)
]

nearest_above : (p q : ℕ) → p / q ≤ nearest p q
unfolding nearest
nearest_above p q = ground arith

unit_fits : (n : ℕ) → 1 ≤ n → (1 ≤ unit_of 53 n) × (unit_of 53 n ≤ n)
unit_fits n h = elim (Bool-cases (ltb n (2 ^ 53))) [
  | inl small ↦ rw small (omega arith, h)
  | inr large ↦
      let e = shift_from 53 shifts n 0 in
      let start : 2 ^ 53 ≤ n / 2 ^ 0 = rw (div-one n) (ground arith) in
      let fits = shift_fits 53 shifts n 0 start in
      let filled = (le-div_iff_mul-le {x = 2 ^ 53} (one-le-pow e 2 (omega arith))).0 fits in
      rw (large, pow-suc 2 e)
        (let positive = one-le-pow e 2 (omega arith) in (omega arith, omega arith))
]

round_size-pos : (p q : ℕ) → 1 ≤ q → q ≤ p → 1 ≤ round_size p q
unfolding round_size
round_size-pos p q hq h =
    let whole : 1 ≤ p / q = (le-div_iff_mul-le {k = q} {x = 1} {y = p} hq).1 (omega arith) in
    let (small, fits) = unit_fits (p / q) whole in
    let u = unit_of 53 (p / q) in
    let bound : u * q ≤ p = (le-div_iff_mul-le {k = q} {x = u} {y = p} hq).0 fits in
    let denominator : 1 ≤ q * u = one-le-mul hq small in
    let once : 1 ≤ p / (q * u) =
      (le-div_iff_mul-le {k = q * u} {x = 1} {y = p} denominator).1 (omega arith) in
    let above = nearest_above p (q * u) in
    let whole_size : 1 ≤ nearest p (q * u) * u = one-le-mul (omega arith) small in
    elim (Bool-cases (ltb infinity_size (nearest p (q * u) * u))) [
      | inl huge ↦ rw huge (ground arith)
      | inr fine ↦ rw fine whole_size
    ]

divisor : (n : ℕ) → 1 ≤ n → 1 ≤ round_size (n * 2 ^ 1074) 1
divisor n h =
    round_size-pos (n * 2 ^ 1074) 1 (omega arith) (one-le-mul h (one-le-pow 1074 2 (omega arith)))

divides_by : (x : Float) (m : ℕ) → 1 ≤ m → (y : Float) × (div_float x (num (pos m)) ≡ some y)
unfolding div_float
divides_by nan m h = let test : eqb m 0 ≡ false = ground arith in (nan, rw test refl)
divides_by (num a) m h = let test : eqb m 0 ≡ false = ground arith in rw test (chosen _ _ _ _)
  where
    chosen :
        (b c : Bool) (x y : Float)
        → (z : Float) × ((if b then some x else if c then some zero_float else some y) ≡ some z)
    chosen true c x y = (x, refl)
    chosen false true x y = (zero_float, refl)
    chosen false false x y = (y, refl)

-- The mean of a list that is not empty is a float: its length is no zero.
pub divides_by_length :
    (x : Float) (n : ℕ) → 1 ≤ n → (y : Float) × (div_float x (float_of_nat n) ≡ some y)
unfolding float_of_nat
divides_by_length x n h = divides_by x (round_size (n * 2 ^ 1074) 1) (divisor n h)
