-- ===== src/Text/Order.antt =====
-- The order of texts by code points, which Python's `<` and SQLite's BINARY collation share.
use Prim.Native.Char.{code}
use Prim.Native.String.{String}
use text.Mathlib.TextEquality.{Char-path}
use soulmate.Prelude.{◌≡◌, refl, ap, ◌∙◌, Bool, true, false, ◌&&◌, ◌||◌, arith, ltb, eqb}

unfoldable pub lt_text : String → String → Bool
lt_text String.[] String.[] = false
lt_text String.[] (String.◌∷◌ d t) = true
lt_text (String.◌∷◌ c s) String.[] = false
lt_text (String.◌∷◌ c s) (String.◌∷◌ d t) =
    ltb (code c) (code d) || (eqb (code c) (code d) && lt_text s t)

lt_text_irreflexive : (s : String) → lt_text s s ≡ false
unfolding lt_text
lt_text_irreflexive String.[] = refl
lt_text_irreflexive (String.◌∷◌ c s) = ground (arith, lt_text_irreflexive s)

pub lt_text_trans : (s t u : String) → lt_text s t ≡ true → lt_text t u ≡ true → lt_text s u ≡ true
unfolding lt_text
lt_text_trans String.[] String.[] u h k = k
lt_text_trans String.[] (String.◌∷◌ d t) String.[] h k = k
lt_text_trans String.[] (String.◌∷◌ d t) (String.◌∷◌ e u) h k = refl
lt_text_trans (String.◌∷◌ c s) String.[] u h k = absurd (cc h)
lt_text_trans (String.◌∷◌ c s) (String.◌∷◌ d t) String.[] h k = k
lt_text_trans (String.◌∷◌ c s) (String.◌∷◌ d t) (String.◌∷◌ e u) h k =
    ground (arith, lt_text_trans s t u)

-- Of two different texts one comes first.
pub lt_text_total : (s t : String) → lt_text s t ≡ false → lt_text t s ≡ false → s ≡ t
unfolding lt_text
lt_text_total String.[] String.[] h k = refl
lt_text_total String.[] (String.◌∷◌ d t) h k = absurd (cc h)
lt_text_total (String.◌∷◌ c s) String.[] h k = absurd (cc k)
lt_text_total (String.◌∷◌ c s) (String.◌∷◌ d t) h k =
    let same : code c ≡ code d = ground arith in
    ap (λ e. String.◌∷◌ e s) (Char-path c d same)
    ∙ ap (String.◌∷◌ d) (lt_text_total s t (ground arith) (ground arith))
