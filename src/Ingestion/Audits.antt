-- ===== src/Ingestion/Audits.antt =====
-- What the service writes to the audit log.
use soulmate.Prelude.{ℕ, String, Option, some, is_some, [], ◌∷◌, ◌++◌}
use soulmate.Json.{bool, int, text, JsonFields, no_fields, field}
use soulmate.DecisionIo.Provenance.{
  DecisionIoEventType, interaction, decision_candidate, decision_resolution, agent_proposal,
  user_override, action, technical_outcome, user_outcome, context, EventActorType, owner, agent,
  assistant, system, third_party, EvidenceEligibility, eligible, contextual_only, ignored,
}
use soulmate.DecisionIo.Policy.{EventClassification}
use soulmate.Domain.Sources.{Source, RawEvent, AuditEvent}
use soulmate.Ingestion.Records.{IngestionResult}
use soulmate.Ingestion.Store.{IngestionStore}
use soulmate.Ingestion.Reports.{PromotedResolution, Ids}

-- `.value` of the enumerations
abbrev pub event_type_text : DecisionIoEventType → String
event_type_text interaction = "interaction"
event_type_text decision_candidate = "decision_candidate"
event_type_text decision_resolution = "decision_resolution"
event_type_text agent_proposal = "agent_proposal"
event_type_text user_override = "user_override"
event_type_text action = "action"
event_type_text technical_outcome = "technical_outcome"
event_type_text user_outcome = "user_outcome"
event_type_text DecisionIoEventType.correction = "correction"
event_type_text context = "context"

abbrev actor_text : EventActorType → String
actor_text owner = "owner"
actor_text agent = "agent"
actor_text assistant = "assistant"
actor_text system = "system"
actor_text third_party = "third_party"
actor_text EventActorType.unknown = "unknown"

abbrev eligibility_text : EvidenceEligibility → String
eligibility_text eligible = "eligible"
eligibility_text contextual_only = "contextual_only"
eligibility_text ignored = "ignored"

-- An audit holds identifiers and codes only, never the content of an event.
abbrev pub audit_of : Ids → String → String → Source → ℕ → JsonFields → AuditEvent
audit_of ids profile_id action_name source at metadata = record {
  id = ids.audit;
  action = action_name;
  actor_type = "service";
  created_at = at;
  profile_id = some profile_id;
  actor_id = source.provenance.service_identity_id;
  metadata = some metadata;
}

abbrev pub ingest_metadata :
    Source
    → RawEvent
    → EventClassification
    → IngestionResult
    → Option PromotedResolution
    → JsonFields
ingest_metadata source event c result promoted = field "source_id" (text source.id) (
    field "event_type" (text (event_type_text c.event_type)) (
      field "actor_type" (text (actor_text c.actor_type)) (
        field "evidence_eligibility" (text (eligibility_text c.eligibility)) (
          field "policy_profile_version" (text c.profile_version) (
            field "duplicate" (bool result.duplicate) (
              field "promoted" (bool (is_some promoted))
                (field "schema_version" (int event.provenance.schema_version) no_fields)))))))

abbrev pub add_audit : AuditEvent → IngestionStore → IngestionStore
add_audit a s = record s { audits = s.audits ++ a ∷ [] }
