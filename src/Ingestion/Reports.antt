-- ===== src/Ingestion/Reports.antt =====
-- daemon/decision_io.py: what an adapter may report, and the errors of the service.
use soulmate.Prelude.{ℕ, String, Bool, Option, List}
use soulmate.Float.{ℤ, Float}
use soulmate.Json.{JsonFields}
use soulmate.DecisionIo.Provenance.{
  DecisionIoEventType, EventActorType, UserDisposition, TechnicalOutcomeStatus,
}
use soulmate.DecisionIo.Policy.{Timestamp, ReasonCode, EventClassification}
use soulmate.Domain.Decisions.{Features}
use soulmate.Learning.Choice.{LearningError}
use soulmate.Ingestion.Records.{IngestionResult}
use soulmate.Ingestion.Store.{StoreError}

pub record EventEnvelope : Type 0 where
  pub source_id : String
  pub external_event_id : String
  pub event_type : DecisionIoEventType
  pub actor_type : EventActorType
  pub occurred_at : Timestamp
  pub content : JsonFields
  pub schema_version : ℤ
  pub correlation_id : Option String
  pub causation_event_id : Option String

-- An option's external id, label, description and features
pub record ReportedOption : Type 0 where
  pub external_option_id : String
  pub label : String
  pub description : String
  pub features : Features

pub record DecisionProjection : Type 0 where
  pub external_decision_id : String
  pub domain : String
  pub question : String
  pub context : JsonFields
  pub options : List ReportedOption

pub record ResolutionReport : Type 0 where
  pub external_decision_id : String
  pub external_option_id : String
  pub disposition : UserDisposition

pub record OutcomeReport : Type 0 where
  pub external_decision_id : String
  pub technical_status : Option TechnicalOutcomeStatus
  pub disposition : Option UserDisposition
  pub satisfaction : Option Float
  pub regret : Option Bool

pub record Report : Type 0 where
  pub envelope : EventEnvelope
  pub decision : Option DecisionProjection
  pub resolution : Option ResolutionReport
  pub outcome : Option OutcomeReport

pub record PromotedResolution : Type 0 where
  pub decision_id : String
  pub chosen_option_id : String

pub record IngestionOutcome : Type 0 where
  pub result : IngestionResult
  pub classification : EventClassification
  pub promoted : Option PromotedResolution

-- The reason codes of `DecisionIoError`, those of the policy and of the repository, and the
-- `ValueError` of a constructor or of `resolution_evidence`.
pub data ServiceError : Type 0 where
  source_not_found source_not_ingestible source_identity_mismatch : ServiceError
  decision_options_invalid decision_invalid option_not_found : ServiceError
  technical_status_required disposition_required wellbeing_not_reportable : ServiceError
  observation_not_found observation_not_confirmable decision_not_found : ServiceError
  decision_already_resolved observation_state_changed value_error : ServiceError
  policy : ReasonCode → ServiceError
  store : StoreError → ServiceError
  learning : LearningError → ServiceError

-- What `uuid4` returns in one call
pub record Ids : Type 0 where
  pub event : String
  pub decision : String
  pub option : ℕ → String
  pub observation : String
  pub outcome : String
  pub resolution : String
  pub audit : String
