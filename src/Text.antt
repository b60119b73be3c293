-- ===== src/Text.antt =====
-- Python's `str.strip` and `str.partition`, over the native texts.
pub mod Partition
pub mod Order
pub mod SortedSet
pub mod Strip
pub mod Split
pub mod Decimal
use Prim.Native.Char.{Char, code}
use Prim.Native.String.{String}
use soulmate.Prelude.{ℕ, Bool, true, false, ◌&&◌, ◌||◌, leb, eqb, if◌then◌else◌}

-- `str.isspace` of one character
unfoldable pub is_space : ℕ → Bool
is_space c =
    (leb 9 c && leb c 13)
    || (leb 28 c && leb c 32)
    || eqb c 0x85
    || eqb c 0xa0
    || eqb c 0x1680
    || (leb 0x2000 c && leb c 0x200a)
    || eqb c 0x2028
    || eqb c 0x2029
    || eqb c 0x202f
    || eqb c 0x205f
    || eqb c 0x3000

unfoldable pub lstrip : String → String
lstrip String.[] = String.[]
lstrip (String.◌∷◌ c s) = if is_space (code c) then lstrip s else String.◌∷◌ c s

-- A character before a text whose right end is already stripped.
abbrev pub trim_cons : Char → String → String
trim_cons c String.[] = if is_space (code c) then String.[] else String.◌∷◌ c String.[]
trim_cons c (String.◌∷◌ d s) = String.◌∷◌ c (String.◌∷◌ d s)

unfoldable pub rstrip : String → String
rstrip String.[] = String.[]
rstrip (String.◌∷◌ c s) = trim_cons c (rstrip s)

unfoldable pub strip : String → String
unfolding is_space lstrip rstrip
strip s = rstrip (lstrip s)

-- the truth value of a text, negated: `not s`
abbrev pub is_empty : String → Bool
is_empty String.[] = true
is_empty (String.◌∷◌ c s) = false

-- `not s.strip()`
abbrev pub is_blank : String → Bool
is_blank s = is_empty (strip s)

abbrev pub has_char : Char → String → Bool
has_char sep String.[] = false
has_char sep (String.◌∷◌ c s) = eqb (code c) (code sep) || has_char sep s

-- `s.partition(sep)` for a separator of one character: before, the separator if found, after.
unfoldable pub partition : Char → String → String × String × String
partition sep String.[] = (String.[], String.[], String.[])
partition sep (String.◌∷◌ c s) =
    let (before, found, after) = partition sep s in
    if eqb (code c) (code sep)
    then (String.[], String.◌∷◌ c String.[], s)
    else (String.◌∷◌ c before, found, after)
