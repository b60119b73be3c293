-- ===== src/Text/Strip.antt =====
-- `strip` leaves no space at the left end of a text and is idempotent.
use Prim.Native.Char.{Char, code}
use Prim.Native.String.{String}
use soulmate.Prelude.{◌≡◌, refl, false, inl, inr, Bool-cases, ap}
use soulmate.Text.{is_space, lstrip, rstrip, strip, trim_cons}

abbrev pub IsTrimmed : String → Type 0
IsTrimmed String.[] = Unit
IsTrimmed (String.◌∷◌ c s) = is_space (code c) ≡ false

lstrip-IsTrimmed : (s : String) → IsTrimmed (lstrip s)
unfolding lstrip
lstrip-IsTrimmed String.[] = tt
lstrip-IsTrimmed (String.◌∷◌ c s) = elim (Bool-cases (is_space (code c))) [
  | inl e ↦ rw e (lstrip-IsTrimmed s)
  | inr e ↦ rw e e
]

lstrip_of-IsTrimmed : (s : String) → IsTrimmed s → lstrip s ≡ s
unfolding lstrip
lstrip_of-IsTrimmed String.[] h = refl
lstrip_of-IsTrimmed (String.◌∷◌ c s) h = rw h

trim_cons-IsTrimmed :
    (c : Char) (r : String) → is_space (code c) ≡ false → IsTrimmed (trim_cons c r)
trim_cons-IsTrimmed c String.[] h = rw h h
trim_cons-IsTrimmed c (String.◌∷◌ d r) h = h

rstrip-IsTrimmed : (s : String) → IsTrimmed s → IsTrimmed (rstrip s)
unfolding rstrip
rstrip-IsTrimmed String.[] h = tt
rstrip-IsTrimmed (String.◌∷◌ c s) h = trim_cons-IsTrimmed c (rstrip s) h

rstrip-trim_cons : (c : Char) (r : String) → rstrip r ≡ r → rstrip (trim_cons c r) ≡ trim_cons c r
unfolding rstrip
rstrip-trim_cons c String.[] h = elim (Bool-cases (is_space (code c))) [
  | inl e ↦ rw e
  | inr e ↦ rw e (rw e)
]
rstrip-trim_cons c (String.◌∷◌ d r) h = ap (trim_cons c) h

rstrip_idem : (s : String) → rstrip (rstrip s) ≡ rstrip s
unfolding rstrip
rstrip_idem String.[] = refl
rstrip_idem (String.◌∷◌ c s) = rstrip-trim_cons c (rstrip s) (rstrip_idem s)

pub strip-IsTrimmed : (s : String) → IsTrimmed (strip s)
unfolding strip
strip-IsTrimmed s = rstrip-IsTrimmed (lstrip s) (lstrip-IsTrimmed s)
