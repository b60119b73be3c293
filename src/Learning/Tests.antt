-- ===== src/Learning/Tests.antt =====
-- A choice between two options, as evidence.
use soulmate.Prelude.{◌==◌, String, ◌≡◌, refl, none, List, [], ◌∷◌, find, filter, ◌==◌}
use soulmate.Exec.{ok}
use soulmate.Text.{strip, lstrip, rstrip, is_space}
use soulmate.Text.Decimal.{nat_text, digits}
use soulmate.Text.SortedSet.{sorted_set, insert_once}
use soulmate.Text.Order.{lt_text}
use soulmate.Float.{Float, one_float, minus_one_float, in_unit, in_signed_unit, le_float, lt_float}
use soulmate.Float.Arith.{
  decimal, neg_float, add_float, sub_float, div_float, abs_float, max_float, min_float, round_size,
  nearest, sum_from, sum_floats, float_of_nat,
}
use soulmate.Json.{no_fields}
use soulmate.Domain.Decisions.{
  DecisionEvent, DecisionOption, DecisionResolution, still_open, owner_app, owner_interactive,
}
use soulmate.Domain.Evidence.{Evidence, evidence_ok}
use soulmate.Learning.Choice.{
  all_keys, alternative_mean, learn_features, resolution_evidence, choice_evidence,
}

abbrev dinner : DecisionEvent
dinner = record {
  id = "d";
  profile_id = "owner";
  domain = "food";
  question = "What?";
  context = no_fields;
  status = still_open;
  created_at = 1;
  origin = owner_app;
  purpose = owner_interactive;
  source_id = none;
  external_decision_id = none;
  source_event_id = none;
}

abbrev meal : String → Float → DecisionOption
meal id spicy = record {
  id = id;
  decision_id = "d";
  label = "L";
  description = "D";
  features = ("spicy", spicy) ∷ [];
  feature_confidence = one_float;
  external_option_id = none;
}

abbrev meals : List DecisionOption
meals = meal "curry" one_float ∷ meal "soup" (neg_float (decimal 5 1)) ∷ []

abbrev choice : DecisionResolution
choice = record {
  id = "r";
  decision_id = "d";
  chosen_option_id = "curry";
  source_event_id = "event";
  created_at = 2;
}

-- The difference 1.5 is cut to 1.0.
learns :
    resolution_evidence choice dinner "owner" 2 meals
    ≡ ok (choice_evidence choice dinner "owner" 2 meals "spicy" 0 one_float ∷ [])
unfolding resolution_evidence all_keys alternative_mean learn_features nat_text digits sorted_set
    insert_once lt_text is_space strip lstrip rstrip find filter decimal neg_float add_float
    sub_float div_float abs_float max_float min_float round_size nearest sum_from sum_floats
    float_of_nat one_float minus_one_float evidence_ok in_unit in_signed_unit le_float lt_float
learns = refl
