-- ===== src/Delegation/Records.antt =====
-- The records of delegation and what their constructors refuse (domain/models.py).
use soulmate.Prelude.{ℕ, String, Bool, true, false, ◌&&◌, ◌||◌, not, Option, leb, List}
use soulmate.Text.{is_blank}
use soulmate.Float.{Float, in_unit}

pub data DecisionImpact : Type 0 where
  low medium high safety_critical : DecisionImpact

pub data DelegationStatus : Type 0 where
  pending approved rejected completed expired : DelegationStatus

abbrev pub eq_status : DelegationStatus → DelegationStatus → Bool
eq_status pending pending = true
eq_status approved approved = true
eq_status rejected rejected = true
eq_status completed completed = true
eq_status expired expired = true
eq_status a b = false

-- `impact in (HIGH, SAFETY_CRITICAL)`
abbrev pub requires_confirmation : DecisionImpact → Bool
requires_confirmation low = false
requires_confirmation medium = false
requires_confirmation high = true
requires_confirmation safety_critical = true

-- Instants are microseconds; the service passes none that lacks a time zone.
pub record DelegationPolicy : Type 0 where
  pub id : String
  pub profile_id : String
  pub service_identity_id : String
  pub action_type : String
  pub impact : DecisionImpact
  pub minimum_confidence : Float
  pub allow_automatic : Bool
  pub created_at : ℕ
  pub updated_at : ℕ

-- `DelegationPolicy.__post_init__` raises unless this holds.
unfoldable pub policy_ok : DelegationPolicy → Bool
policy_ok p =
    not (is_blank p.action_type)
    && in_unit p.minimum_confidence
    && not (p.allow_automatic && requires_confirmation p.impact)

pub record DelegationRequest : Type 0 where
  pub id : String
  pub profile_id : String
  pub service_identity_id : String
  pub policy_id : Option String
  pub decision_id : String
  pub prediction_id : String
  pub external_request_id : String
  pub action_type : String
  pub action_label : String
  pub impact : DecisionImpact
  pub predicted_option_id : String
  pub prediction_confidence : Float
  pub status : DelegationStatus
  pub reason_code : String
  pub requested_at : ℕ
  pub expires_at : ℕ
  pub reviewed_at : Option ℕ
  pub completed_at : Option ℕ
  pub expired_at : Option ℕ

-- `DelegationRequest.__post_init__` raises unless this holds.
unfoldable pub request_ok : DelegationRequest → Bool
request_ok r =
    not (is_blank r.external_request_id || is_blank r.action_type)
    && not (is_blank r.action_label)
    && in_unit r.prediction_confidence
    && not (leb r.expires_at r.requested_at)

-- What the engine reads of a stored decision, of a prediction (of its ranking, the option ids) and
-- of a model snapshot.
pub record DecisionEvent : Type 0 where
  pub id : String
  pub profile_id : String

pub record DecisionPrediction : Type 0 where
  pub id : String
  pub decision_id : String
  pub profile_id : String
  pub ranking : List String
  pub confidence : Float
  pub model_snapshot_version : ℕ
  pub created_at : ℕ

pub record UserModelSnapshot : Type 0 where
  pub profile_id : String
  pub version : ℕ
