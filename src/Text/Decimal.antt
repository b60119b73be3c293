-- ===== src/Text/Decimal.antt =====
-- The decimal text of a number, as an f-string writes it.
use Prim.Native.Char.{Char}
use Prim.Native.String.{String}
use soulmate.Prelude.{ℕ, zero, suc, ◌-◌, ◌*◌, ◌/◌, ltb, if◌then◌else◌}
use soulmate.Text.Split.{append}

abbrev nth : ℕ → String → Char
nth n String.[] = "0"
nth zero (String.◌∷◌ c s) = c
nth (suc n) (String.◌∷◌ c s) = nth n s

abbrev digit : ℕ → String
digit n = String.◌∷◌ (nth n "0123456789") String.[]

-- The number itself is more fuel than it has digits.
unfoldable pub digits : ℕ → ℕ → String
digits zero n = String.[]
digits (suc fuel) n =
    let high = digits fuel (n / 10) in
    if ltb n 10 then digit n else append high (digit (n - 10 * (n / 10)))

unfoldable pub nat_text : ℕ → String
unfolding digits
nat_text n = digits (suc n) n
