-- ===== src/Domain/Decisions.antt =====
-- Decisions, their options, resolutions and outcomes, with what their constructors refuse.
use soulmate.Prelude.{
  ℕ, String, Bool, true, false, not, ◌&&◌, ◌||◌, Option, is_none, is_some, List, any,
}
use soulmate.Float.{Float, in_unit, in_signed_unit}
use soulmate.Text.{is_blank}
use soulmate.Json.{JsonFields}
use soulmate.DecisionIo.Provenance.{is_nil, blank_text}

-- `still_open` is `OPEN`.
pub data DecisionStatus : Type 0 where
  still_open resolved : DecisionStatus

pub data DecisionOrigin : Type 0 where
  owner_app external_service connector imported legacy : DecisionOrigin

pub data DecisionPurpose : Type 0 where
  owner_interactive agent_consultation observed shadow : DecisionPurpose

pub data OutcomeAttribution : Type 0 where
  owner_confirmed legacy_unverified : OutcomeAttribution

abbrev pub is_open : DecisionStatus → Bool
is_open still_open = true
is_open resolved = false

pub record DecisionEvent : Type 0 where
  pub id : String
  pub profile_id : String
  pub domain : String
  pub question : String
  pub context : JsonFields
  pub status : DecisionStatus
  pub created_at : ℕ
  pub origin : DecisionOrigin
  pub purpose : DecisionPurpose
  pub source_id : Option String
  pub external_decision_id : Option String
  pub source_event_id : Option String

-- `DecisionEvent.__post_init__` raises unless this holds.
unfoldable pub decision_ok : DecisionEvent → Bool
decision_ok d =
    not (is_blank d.domain || is_blank d.question)
    && not (is_some d.external_decision_id && is_none d.source_id)

-- The features of an option, in the order of the dict.
abbrev pub Features : Type 0
Features = List (String × Float)

pub record DecisionOption : Type 0 where
  pub id : String
  pub decision_id : String
  pub label : String
  pub description : String
  pub features : Features
  pub feature_confidence : Float
  pub external_option_id : Option String

abbrev pub bad_feature : String × Float → Bool
bad_feature (key, value) = is_blank key || not (in_signed_unit value)

-- `DecisionOption.__post_init__` raises unless this holds.
unfoldable pub option_ok : DecisionOption → Bool
option_ok o =
    not (is_blank o.label || is_blank o.description)
    && not (is_nil o.features)
    && not (any bad_feature o.features)
    && in_unit o.feature_confidence

pub record DecisionResolution : Type 0 where
  pub id : String
  pub decision_id : String
  pub chosen_option_id : String
  pub source_event_id : String
  pub created_at : ℕ

pub record DecisionOutcome : Type 0 where
  pub id : String
  pub decision_id : String
  pub profile_id : String
  pub satisfaction : Float
  pub regret : Bool
  pub notes : Option String
  pub source_event_id : String
  pub created_at : ℕ
  pub attribution : OutcomeAttribution

-- `DecisionOutcome.__post_init__` raises unless this holds.
unfoldable decision_outcome_ok : DecisionOutcome → Bool
decision_outcome_ok o = in_unit o.satisfaction && not (blank_text o.notes)
