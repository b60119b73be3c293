-- ===== src/DecisionIo/Observations.antt =====
-- The observations of core/domain/provenance.py: reports that are not canonical yet.
use soulmate.Prelude.{
  ℕ, String, Bool, true, false, not, ◌&&◌, ◌||◌, Option, none, some, is_none, is_some,
}
use soulmate.Float.{Float, in_unit}
use soulmate.DecisionIo.Provenance.{
  EventActorType, ObservationStatus, unmatched, confirmed, UserDisposition, OutcomeKind, technical,
  user_behavior, owner_reported, TechnicalOutcomeStatus,
}

abbrev pub is_confirmed : ObservationStatus → Bool
is_confirmed confirmed = true
is_confirmed s = false

abbrev pub is_unmatched : ObservationStatus → Bool
is_unmatched unmatched = true
is_unmatched s = false

-- `a != b` on truth values
abbrev differ : Bool → Bool → Bool
differ true b = not b
differ false b = b

-- `x is not None and not 0.0 <= x <= 1.0`
abbrev outside_unit : Option Float → Bool
outside_unit none = false
outside_unit (some x) = not (in_unit x)

pub record ResolutionObservation : Type 0 where
  pub id : String
  pub profile_id : String
  pub source_id : String
  pub source_event_id : String
  pub actor_type : EventActorType
  pub status : ObservationStatus
  pub disposition : UserDisposition
  pub created_at : ℕ
  pub decision_id : Option String
  pub external_decision_id : Option String
  pub chosen_option_id : Option String
  pub external_option_id : Option String
  pub correlation_confidence : Option Float
  pub confirmed_at : Option ℕ
  pub reason_code : Option String

-- `ResolutionObservation.__post_init__` raises unless this holds.
unfoldable pub resolution_ok : ResolutionObservation → Bool
resolution_ok o =
    not (outside_unit o.correlation_confidence)
    && not (is_none o.decision_id && is_none o.external_decision_id)
    && not (is_unmatched o.status && is_some o.decision_id)
    && not (differ (is_confirmed o.status) (is_some o.confirmed_at))
    && not (is_confirmed o.status && is_none o.decision_id)

pub record OutcomeObservation : Type 0 where
  pub id : String
  pub profile_id : String
  pub source_id : String
  pub source_event_id : String
  pub kind : OutcomeKind
  pub actor_type : EventActorType
  pub status : ObservationStatus
  pub created_at : ℕ
  pub decision_id : Option String
  pub external_decision_id : Option String
  pub technical_status : Option TechnicalOutcomeStatus
  pub disposition : Option UserDisposition
  pub satisfaction : Option Float
  pub regret : Option Bool
  pub confirmed_at : Option ℕ
  pub reason_code : Option String

abbrev pub is_technical : OutcomeKind → Bool
is_technical technical = true
is_technical k = false

abbrev pub is_user_behavior : OutcomeKind → Bool
is_user_behavior user_behavior = true
is_user_behavior k = false

abbrev is_owner_reported : OutcomeKind → Bool
is_owner_reported owner_reported = true
is_owner_reported k = false

-- `OutcomeObservation.__post_init__` raises unless this holds.
unfoldable pub outcome_ok : OutcomeObservation → Bool
outcome_ok o =
    not (is_none o.decision_id && is_none o.external_decision_id)
    && not (is_unmatched o.status && is_some o.decision_id)
    && not (differ (is_confirmed o.status) (is_some o.confirmed_at))
    && not (is_confirmed o.status && is_none o.decision_id)
    && not (outside_unit o.satisfaction)
    && not (is_technical o.kind && is_none o.technical_status)
    && not (not (is_technical o.kind) && is_some o.technical_status)
    && not (is_user_behavior o.kind && is_none o.disposition)
    && not (not (is_user_behavior o.kind) && is_some o.disposition)
    && not (not (is_owner_reported o.kind) && (is_some o.satisfaction || is_some o.regret))
    && not (is_owner_reported o.kind && (is_none o.satisfaction || is_none o.regret))
