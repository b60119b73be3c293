-- ===== src/Text/Split.antt =====
-- `str.split` by one character, `str.join`, `str.strip` of one character, and the `sub` of a regular
-- expression that matches runs of characters.
use Prim.Native.Char.{Char, code}
use Prim.Native.String.{String}
use soulmate.Prelude.{ℕ, Bool, List, [], ◌∷◌, eqb, if◌then◌else◌}

abbrev is_char : Char → Char → Bool
is_char sep c = eqb (code c) (code sep)

abbrev cons_first : Char → List String → List String
cons_first c [] = String.◌∷◌ c String.[] ∷ []
cons_first c (s ∷ parts) = String.◌∷◌ c s ∷ parts

-- `s.split(sep)`
unfoldable pub split : Char → String → List String
split sep String.[] = String.[] ∷ []
split sep (String.◌∷◌ c s) =
    let parts = split sep s in if is_char sep c then String.[] ∷ parts else cons_first c parts

abbrev pub append : String → String → String
append String.[] t = t
append (String.◌∷◌ c s) t = String.◌∷◌ c (append s t)

abbrev after_first : Char → String → List String → String
after_first sep s [] = s
after_first sep s (t ∷ parts) = append s (String.◌∷◌ sep (after_first sep t parts))

-- `sep.join(parts)`
unfoldable pub join : Char → List String → String
join sep [] = String.[]
join sep (s ∷ parts) = after_first sep s parts

unfoldable pub lstrip_char : Char → String → String
lstrip_char sep String.[] = String.[]
lstrip_char sep (String.◌∷◌ c s) = if is_char sep c then lstrip_char sep s else String.◌∷◌ c s

abbrev trim_char : Char → Char → String → String
trim_char sep c String.[] = if is_char sep c then String.[] else String.◌∷◌ c String.[]
trim_char sep c (String.◌∷◌ d s) = String.◌∷◌ c (String.◌∷◌ d s)

unfoldable pub rstrip_char : Char → String → String
rstrip_char sep String.[] = String.[]
rstrip_char sep (String.◌∷◌ c s) = trim_char sep c (rstrip_char sep s)

-- `s.strip(sep)`
unfoldable pub strip_char : Char → String → String
unfolding lstrip_char rstrip_char
strip_char sep s = rstrip_char sep (lstrip_char sep s)

-- A run of characters of the class becomes one `by`; `inside` says whether a run has begun.
unfoldable pub squeeze : (ℕ → Bool) → Char → Bool → String → String
squeeze class by inside String.[] = String.[]
squeeze class by inside (String.◌∷◌ c s) =
    let hit = class (code c) in
    let rest = squeeze class by hit s in
    if hit then (if inside then rest else String.◌∷◌ by rest) else String.◌∷◌ c rest
