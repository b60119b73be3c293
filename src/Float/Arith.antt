-- ===== src/Float/Arith.antt =====
-- Arithmetic of Python floats: IEEE 754 double precision, rounding to the nearest float and to even
-- on a tie. There is one zero: -0.0 compares and adds as 0.0 does.
use soulmate.Prelude.{
  ℕ, zero, suc, ◌+◌, ◌-◌, ◌*◌, ◌/◌, ◌^◌, Bool, true, false, ◌&&◌, ◌||◌, Option, none, some, List,
  [], ◌∷◌, ltb, leb, eqb, if◌then◌else◌,
}
use soulmate.Float.{
  ℤ, pos, negsuc, pos_part, neg_part, Float, nan, num, lt_float, le_float, zero_float,
}

-- The larger shifts, tried in turn, find the power of two that leaves 53 binary digits.
abbrev pub shifts : List ℕ
shifts = 2048 ∷ 1024 ∷ 512 ∷ 256 ∷ 128 ∷ 64 ∷ 32 ∷ 16 ∷ 8 ∷ 4 ∷ 2 ∷ 1 ∷ []

-- The largest shift that still leaves `digits` binary digits or more, above this one
abbrev pub shift_from : ℕ → List ℕ → ℕ → ℕ → ℕ
shift_from digits [] n e = e
shift_from digits (k ∷ ks) n e =
    shift_from digits ks n (if leb (2 ^ digits) (n / 2 ^ (e + k)) then e + k else e)

-- The size of the unit in the last of `digits` places of n
abbrev pub unit_of : ℕ → ℕ → ℕ
unit_of digits n = if ltb n (2 ^ digits) then 1 else 2 ^ suc (shift_from digits shifts n 0)

abbrev is_odd : ℕ → Bool
is_odd n = eqb (n - 2 * (n / 2)) 1

-- p / q to the nearest whole number, to even on a tie
unfoldable pub nearest : ℕ → ℕ → ℕ
nearest p q =
    let n = p / q in
    let twice = 2 * (p - n * q) in if ltb q twice || (eqb q twice && is_odd n) then suc n else n

abbrev pub infinity_size : ℕ
infinity_size = 2 ^ 2098

-- The size of the float nearest to p / q, in units of 2 ^ -1074
unfoldable pub round_size : ℕ → ℕ → ℕ
unfolding nearest
round_size p q =
    let u = unit_of 53 (p / q) in
    let n = nearest p (q * u) * u in if ltb infinity_size n then infinity_size else n

abbrev pub signed : Bool → ℕ → ℤ
signed negative zero = pos 0
signed false (suc n) = pos (suc n)
signed true (suc n) = negsuc n

abbrev pub is_negative : ℤ → Bool
is_negative (pos n) = false
is_negative (negsuc n) = true

abbrev pub size : ℤ → ℕ
size (pos n) = n
size (negsuc n) = suc n

abbrev pub is_infinite : ℤ → Bool
is_infinite a = leb infinity_size (size a)

abbrev infinity : Bool → Float
infinity negative = num (signed negative infinity_size)

-- `-x`
unfoldable pub neg_float : Float → Float
neg_float nan = nan
neg_float (num (pos n)) = num (signed true n)
neg_float (num (negsuc n)) = num (pos (suc n))

-- The sum of two signed sizes, given as positive and negative parts
abbrev rounded_difference : ℕ → ℕ → Float
rounded_difference p n =
    if ltb p n then num (signed true (round_size (n - p) 1)) else num (pos (round_size (p - n) 1))

abbrev xor : Bool → Bool → Bool
xor true true = false
xor true false = true
xor false b = b

-- `x + y`
unfoldable pub add_float : Float → Float → Float
unfolding round_size
add_float nan y = nan
add_float (num a) nan = nan
add_float (num a) (num b) =
    if is_infinite a
    then (if is_infinite b && xor (is_negative a) (is_negative b) then nan else num a)
    else if is_infinite b
    then num b
    else rounded_difference (pos_part a + pos_part b) (neg_part a + neg_part b)

-- `x - y`
unfoldable pub sub_float : Float → Float → Float
unfolding add_float neg_float
sub_float x y = add_float x (neg_float y)

-- `x * y`
unfoldable pub mul_float : Float → Float → Float
unfolding round_size
mul_float nan y = nan
mul_float (num a) nan = nan
mul_float (num a) (num b) =
    let sign = xor (is_negative a) (is_negative b) in
    if is_infinite a || is_infinite b
    then (if eqb (size a) 0 || eqb (size b) 0 then nan else infinity sign)
    else num (signed sign (round_size (size a * size b) (2 ^ 1074)))

-- `x / y`; none for the `ZeroDivisionError`
unfoldable pub div_float : Float → Float → Option Float
unfolding round_size
div_float x nan = some nan
div_float nan (num b) = if eqb (size b) 0 then none else some nan
div_float (num a) (num b) =
    let sign = xor (is_negative a) (is_negative b) in
    if eqb (size b) 0
    then none
    else if is_infinite a
    then some (if is_infinite b then nan else infinity sign)
    else if is_infinite b
    then some zero_float
    else some (num (signed sign (round_size (size a * 2 ^ 1074) (size b))))

-- `abs(x)`
unfoldable pub abs_float : Float → Float
abs_float nan = nan
abs_float (num a) = num (pos (size a))

-- `max(x, y)` and `min(x, y)` return the first unless the second is greater, or less.
unfoldable pub max_float : Float → Float → Float
unfolding lt_float
max_float x y = if lt_float x y then y else x

unfoldable pub min_float : Float → Float → Float
unfolding lt_float
min_float x y = if lt_float y x then y else x

-- `float(n)`
unfoldable pub float_of_nat : ℕ → Float
unfolding round_size
float_of_nat n = num (pos (round_size (n * 2 ^ 1074) 1))

-- `sum(xs)` of floats, as CPython 3.12 and later compute it: with a compensation that is added at
-- the end if it is finite and not zero.
abbrev add_compensation : Float → Float → Float
add_compensation total nan = total
add_compensation total (num c) = if is_infinite c then total else add_float total (num c)

abbrev lost_digits : Float → Float → Float → Float
lost_digits total x t =
    if le_float (abs_float x) (abs_float total)
    then add_float (sub_float total t) x
    else add_float (sub_float x t) total

unfoldable pub sum_from : Float → Float → List Float → Float
unfolding add_float sub_float abs_float le_float
sum_from total compensation [] = add_compensation total compensation
sum_from total compensation (x ∷ xs) =
    let t = add_float total x in sum_from t (add_float compensation (lost_digits total x t)) xs

unfoldable pub sum_floats : List Float → Float
unfolding sum_from
sum_floats xs = sum_from zero_float zero_float xs

-- The nearest float to m * 10 ^ -k, as a literal of the source is read
unfoldable pub decimal : ℕ → ℕ → Float
unfolding round_size
decimal m k = num (pos (round_size (m * 2 ^ 1074) (10 ^ k)))
