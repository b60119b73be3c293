-- ===== src/Keys/Normalize.antt =====
-- core/keys/normalization.py. Case folding is a parameter.
use soulmate.Prelude.{
  ℕ, String, Bool, false, not, ◌||◌, Option, none, some, List, [], ◌∷◌, map, filter, eqb, text_in,
  if◌then◌else◌,
}
use soulmate.Text.{is_space, strip, is_empty}
use soulmate.Text.Split.{split, join, strip_char, squeeze}
use soulmate.DecisionIo.Provenance.{is_nil}

abbrev pub key_normalizer_version : String
key_normalizer_version = "key-normalizer-v1"

abbrev filler_tokens : List String
filler_tokens = "mode" ∷ "preference" ∷ "setting" ∷ "level" ∷ []

-- `[\s\-/]`
unfoldable pub is_separator : ℕ → Bool
unfolding is_space
is_separator c = is_space c || eqb c 45 || eqb c 47

abbrev is_underscore : ℕ → Bool
is_underscore c = eqb c 95

-- `_segment`
unfoldable pub segment : String → String
unfolding is_separator strip squeeze strip_char
segment value =
    let joined = squeeze is_separator "_" false (strip value) in
    strip_char "_" (squeeze is_underscore "_" false joined)

-- `_without_filler`
unfoldable pub without_filler : String → String
unfolding split join filter
without_filler s =
    let tokens = filter (λ t. not (text_in t filler_tokens)) (split "_" s) in
    if is_nil tokens then s else join "_" tokens

abbrev at_last : (String → String) → List String → List String
at_last f [] = []
at_last f (s ∷ []) = f s ∷ []
at_last f (s ∷ t ∷ parts) = s ∷ at_last f (t ∷ parts)

abbrev join_segments : List String → Option String
join_segments [] = none
join_segments (s ∷ parts) = some (join "." (at_last without_filler (s ∷ parts)))

module _ (casefold : String → String) where
  -- `normalize_key`, and `normalized_or_none` of core/keys/proposals.py: `ValueError` is `none`.
  unfoldable pub normalize_key : String → Option String
  unfolding segment without_filler split join filter
  normalize_key key =
      join_segments (filter (λ s. not (is_empty s)) (map segment (split "." (casefold key))))
