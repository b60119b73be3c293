-- ===== src/Domain/Evidence.antt =====
-- `Evidence`, and the labels and vectors of the keys that evidence is about.
use soulmate.Prelude.{
  ℕ, ◌*◌, ◌^◌, suc, String, Bool, true, false, not, ◌&&◌, ◌||◌, Option, is_none, List, [], ◌∷◌, any,
  text_in, ◌-◌,
}
use soulmate.Float.{ℤ, pos, negsuc, Float, num, in_unit, in_signed_unit}
use soulmate.Text.{is_empty, is_blank}
use soulmate.Json.{Json, JsonFields, int, real}
use soulmate.DecisionIo.Provenance.{is_nil, blank_text}
use soulmate.Keys.Records.{EvidenceTargetType, is_preference}

pub record Evidence : Type 0 where
  pub id : String
  pub profile_id : String
  pub target_type : EvidenceTargetType
  pub target_key : String
  pub value : Json
  pub strength : Float
  pub confidence : Float
  pub context : JsonFields
  pub source_type : String
  pub source_event_id : String
  pub extractor_version : String
  pub created_at : ℕ
  pub extractor_model : Option String
  pub source_message_id : Option String

-- `float(n)`, exact up to 2 ^ 53; beyond, this is n itself, which compares with -1 and 1 as the
-- rounded number does.
abbrev float_of_int : ℤ → Float
float_of_int (pos n) = num (pos (n * 2 ^ 1074))
float_of_int (negsuc n) = num (negsuc (suc n * 2 ^ 1074 - 1))

abbrev bad_preference : Json → Bool
bad_preference (int n) = not (in_signed_unit (float_of_int n))
bad_preference (real x) = not (in_signed_unit x)
bad_preference value = true

-- `Evidence.__post_init__` raises unless this holds.
unfoldable pub evidence_ok : Evidence → Bool
evidence_ok e =
    not (is_empty e.target_key)
    && not (is_empty e.source_type || is_empty e.source_event_id || is_empty e.extractor_version)
    && in_unit e.strength
    && in_unit e.confidence
    && not (is_preference e.target_type && bad_preference e.value)

pub data TargetKeyLabelSource : Type 0 where
  extracted owner : TargetKeyLabelSource

pub record TargetKeyLabel : Type 0 where
  pub profile_id : String
  pub target_type : EvidenceTargetType
  pub key : String
  pub label : Option String
  pub aliases : List String
  pub source : TargetKeyLabelSource
  pub created_at : ℕ
  pub updated_at : ℕ

-- `len(set(xs)) != len(xs)`
abbrev pub repeats_text : List String → Bool
repeats_text [] = false
repeats_text (x ∷ xs) = text_in x xs || repeats_text xs

-- `TargetKeyLabel.__post_init__` raises unless this holds.
unfoldable pub label_ok : TargetKeyLabel → Bool
label_ok l =
    not (is_empty l.key)
    && not (blank_text l.label)
    && not (any is_blank l.aliases)
    && not (repeats_text l.aliases)
    && not (is_none l.label && is_nil l.aliases)

pub record TargetKeyEmbedding : Type 0 where
  pub profile_id : String
  pub target_type : EvidenceTargetType
  pub key : String
  pub model_id : String
  pub text_hash : String
  pub vector : List Float
  pub created_at : ℕ

-- `TargetKeyEmbedding.__post_init__` raises unless this holds.
unfoldable embedding_ok : TargetKeyEmbedding → Bool
embedding_ok e =
    not (is_empty e.key || is_empty e.model_id || is_empty e.text_hash) && not (is_nil e.vector)
