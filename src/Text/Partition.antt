-- ===== src/Text/Partition.antt =====
-- `partition` splits a text at the first separator, and nothing is lost.
use Prim.Native.Char.{Char, code}
use Prim.Native.String.{String, ◌++◌}
use text.Mathlib.TextEquality.{Char-path}
use text.Mathlib.TextLemmas.{nil-append, cons-append}
use soulmate.Prelude.{
  ◌≡◌, refl, Bool, ◌||◌, false, inl, inr, arith, eqb, eqb_iff, Bool-cases, ap, sym, ◌∙◌,
}
use soulmate.Text.{is_empty, has_char, partition}

abbrev single : Char → String
single c = String.◌∷◌ c String.[]

or_assoc : (a b c : Bool) → (a || (b || c)) ≡ ((a || b) || c)
or_assoc a b c = ground arith

pub partition-append :
    (sep : Char) (a b : String)
    → has_char sep a ≡ false
    → partition sep (a ++ String.◌∷◌ sep b) ≡ (a, single sep, b)
unfolding partition
partition-append sep String.[] b h = rw (nil-append, (eqb_iff (code sep) (code sep)).1 refl)
partition-append sep (String.◌∷◌ c a) b h = elim (Bool-cases (eqb (code c) (code sep))) [
  | inl e ↦ ground arith
  | inr e ↦ rw (cons-append, partition-append sep a b (ground arith), e)
]

partition_no_sep :
    (sep : Char) (s : String) → has_char sep s ≡ false → partition sep s ≡ (s, String.[], String.[])
unfolding partition
partition_no_sep sep String.[] h = refl
partition_no_sep sep (String.◌∷◌ c s) h = ground (arith, partition_no_sep sep s)

-- Where the separator is found, the parts around it give the text back.
partition_found :
    (sep : Char) (s : String)
    → let (a, m, b) = partition sep s in
      is_empty m ≡ false → (a ++ String.◌∷◌ sep b ≡ s) × (has_char sep a ≡ false)
unfolding partition
partition_found sep String.[] = λ f. cc
partition_found sep (String.◌∷◌ c s) = elim (Bool-cases (eqb (code c) (code sep))) [
  | inl e ↦ rw e (λ f.
      (nil-append _ ∙ ap (λ d. String.◌∷◌ d s) (sym (Char-path c sep ((eqb_iff _ _).0 e))), refl))
  | inr e ↦ rw e (λ f.
      let (back, out) = partition_found sep s f in
      (cons-append _ _ _ ∙ ap (String.◌∷◌ c) back, rw e out))
]

pub has_char-append :
    (c : Char) (a b : String) → has_char c (a ++ b) ≡ (has_char c a || has_char c b)
has_char-append c String.[] b = rw (nil-append)
has_char-append c (String.◌∷◌ d a) b =
    rw (cons-append, has_char-append c a b)
      (or_assoc (eqb (code d) (code c)) (has_char c a) (has_char c b))

pub is_empty-append : (a b : String) → is_empty a ≡ false → is_empty (a ++ b) ≡ false
is_empty-append String.[] b h = absurd (cc h)
is_empty-append (String.◌∷◌ c a) b h = rw (cons-append)
