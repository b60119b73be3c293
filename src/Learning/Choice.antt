-- ===== src/Learning/Choice.antt =====
-- `resolution_evidence` of core/decisions/predictor.py: a resolved choice as evidence of preferences.
use soulmate.Prelude.{
  ℕ, suc, String, not, ◌||◌, Option, none, some, List, [], ◌∷◌, ◌++◌, ◌==◌, any, map, find, filter,
  length, ltb, if◌then◌else◌,
}
use soulmate.Exec.{Result, ok, err, bind, reject_if}
use soulmate.Text.Split.{append}
use soulmate.Text.Decimal.{nat_text}
use soulmate.Text.SortedSet.{sorted_set}
use soulmate.Float.{Float, lt_float, zero_float, one_float, minus_one_float}
use soulmate.Float.Arith.{
  sub_float, div_float, abs_float, min_float, float_of_nat, sum_floats, decimal,
}
use soulmate.Float.Bounds.{clamp}
use soulmate.Json.{real, text, no_fields, field}
use soulmate.Keys.Records.{preference}
use soulmate.Domain.Decisions.{DecisionEvent, DecisionOption, DecisionResolution, Features}
use soulmate.Domain.Evidence.{Evidence, evidence_ok}

-- The two messages of its `ValueError`, that of the constructor of `Evidence`, and the division by
-- the number of the alternatives.
pub data LearningError : Type 0 where
  too_few_options not_selected value_error zero_division : LearningError

-- `features.get(key, 0.0)`
abbrev pub feature : String → Features → Float
feature key [] = zero_float
feature key ((k, x) ∷ rest) = if k == key then x else feature key rest

abbrev pub keys_of : Features → List String
keys_of [] = []
keys_of ((k, x) ∷ rest) = k ∷ keys_of rest

unfoldable pub all_keys : List DecisionOption → List String
all_keys [] = []
all_keys (o ∷ options) = keys_of o.features ++ all_keys options

-- `min(item.feature_confidence for item in options)`, which keeps the first of equal ones
abbrev pub least_confidence : Float → List DecisionOption → Float
least_confidence least [] = least
least_confidence least (o ∷ options) =
    least_confidence (min_float least o.feature_confidence) options

abbrev pub confidence_of : List DecisionOption → Float
confidence_of [] = one_float
confidence_of (o ∷ options) = least_confidence o.feature_confidence options

abbrev or_zero_division : Option Float → Result LearningError Float
or_zero_division none = err zero_division
or_zero_division (some x) = ok x

-- `alternative_mean`
unfoldable pub alternative_mean : String → List DecisionOption → Result LearningError Float
unfolding div_float sum_floats float_of_nat
alternative_mean key alternatives = or_zero_division (
    div_float (sum_floats (map (λ (o : DecisionOption). feature key o.features) alternatives))
      (float_of_nat (length alternatives)))

-- 1e-12
abbrev pub negligible : Float
negligible = decimal 1 12

abbrev pub relative_value : String → DecisionOption → Float → Float
relative_value key chosen mean =
    clamp minus_one_float one_float (sub_float (feature key chosen.features) mean)

module _ (resolution : DecisionResolution) (decision : DecisionEvent) (profile_id : String)
    (created_at : ℕ) where
  abbrev pub choice_evidence : List DecisionOption → String → ℕ → Float → Evidence
  choice_evidence options key index value = record {
    id = append resolution.id (append "_evidence_" (nat_text index));
    profile_id = profile_id;
    target_type = preference;
    target_key = key;
    value = real value;
    strength = decimal 9 1;
    confidence = confidence_of options;
    context = field "domain" (text decision.domain) no_fields;
    source_type = "actual_choice";
    source_event_id = resolution.source_event_id;
    extractor_version = "decision-resolution-v1";
    created_at = created_at;
    extractor_model = none;
    source_message_id = none;
  }

  abbrev pub checked : Evidence → Result LearningError Evidence
  checked e = if evidence_ok e then ok e else err value_error

  -- One pass of the loop, before the passes after it
  abbrev pub keep_value :
      List DecisionOption
      → String
      → ℕ
      → Float
      → Result LearningError (List Evidence)
      → Result LearningError (List Evidence)
  keep_value options key index value others =
      if lt_float (abs_float value) negligible
      then others
      else bind (checked (choice_evidence options key index value))
          λ e. bind others λ rest. ok (e ∷ rest)

  unfoldable pub learn_features :
      List DecisionOption
      → DecisionOption
      → List DecisionOption
      → List String
      → ℕ
      → Result LearningError (List Evidence)
  unfolding alternative_mean sub_float
  learn_features options chosen alternatives [] index = ok []
  learn_features options chosen alternatives (key ∷ keys) index =
      bind (alternative_mean key alternatives) λ mean.
        keep_value options key index (relative_value key chosen mean)
          (learn_features options chosen alternatives keys (suc index))

  abbrev learn_chosen :
      List DecisionOption → Option DecisionOption → Result LearningError (List Evidence)
  learn_chosen options none = err not_selected
  learn_chosen options (some chosen) =
      bind (reject_if (not (decision.profile_id == profile_id)) not_selected) λ _.
        learn_features options chosen
          (filter (λ (o : DecisionOption). not (o.id == chosen.id)) options)
          (sorted_set (all_keys options)) 0

  unfoldable pub resolution_evidence : List DecisionOption → Result LearningError (List Evidence)
  unfolding learn_features filter find sorted_set all_keys
  resolution_evidence options =
      bind
        (reject_if
          (ltb (length options) 2
            || any (λ (o : DecisionOption). not (o.decision_id == decision.id)) options)
          too_few_options)
        λ _.
          learn_chosen options
            (find (λ (o : DecisionOption). o.id == resolution.chosen_option_id) options)
