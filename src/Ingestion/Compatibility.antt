-- ===== src/Ingestion/Compatibility.antt =====
-- `compatibility_source` and `record_reported_wellbeing` of daemon/decision_io.py: reports of
-- programs that use the older interface.
use soulmate.Prelude.{ℕ, String, Bool, ◌&&◌, Option, none, some, [], ◌∷◌, ◌==◌, find, if◌then◌else◌}
use soulmate.Exec.{Result, ok, err}
use soulmate.Text.Split.{append}
use soulmate.Float.{pos, Float}
use soulmate.Json.{Json, null, bool, real, text, JsonFields, no_fields, field}
use soulmate.DecisionIo.Provenance.{
  SourceProvenance, EventProvenance, event_provenance_ok, agent_push, owner_implicit, outcome,
  agent_only, structured_only, agent, contextual_only, pending, owner_reported,
}
use soulmate.DecisionIo.Observations.{OutcomeObservation, outcome_ok}
use soulmate.DecisionIo.Policy.{policy_profile_version}
use soulmate.Domain.Sources.{Source, RawEvent, raw_event_ok}
use soulmate.Ingestion.Records.{IngestionWrite, write_ok, IngestionResult, eq_text}
use soulmate.Ingestion.Store.{IngestionStore, StoreError}
use soulmate.Ingestion.Transaction.{ingest}
use soulmate.Ingestion.Sources.{add_source, list_sources}
use soulmate.Ingestion.Reports.{Ids, ServiceError, value_error, store}
use soulmate.Ingestion.Audits.{audit_of, add_audit}

abbrev compatibility_provider : String
compatibility_provider = "legacy_record_outcome"

abbrev compatibility_type : String
compatibility_type = append "agent:" compatibility_provider

abbrev stands_for : String → Source → Bool
stands_for identity x =
    x.source_type == compatibility_type && eq_text x.provenance.service_identity_id (some identity)

abbrev compatibility_provenance : String → ℕ → SourceProvenance
compatibility_provenance identity now = record {
  provider = some compatibility_provider;
  acquisition_method = agent_push;
  consent_mode = owner_implicit;
  consent_at = some now;
  data_classes = outcome ∷ [];
  author_scope = agent_only;
  raw_retention_policy = structured_only;
  adapter_version = none;
  parser_version = none;
  policy_profile_version = policy_profile_version;
  service_identity_id = some identity;
}

abbrev new_source : String → String → String → String → ℕ → Source
new_source source_id profile_id identity name now = record {
  id = source_id;
  profile_id = profile_id;
  source_type = compatibility_type;
  name = append name " (compatibility)";
  created_at = now;
  provenance = compatibility_provenance identity now;
}

abbrev added :
    Source
    → Result StoreError (Unit {0}) × IngestionStore
    → Result ServiceError Source × IngestionStore
added source (err e, s) = (err (store e), s)
added source (ok u, s) = (ok source, s)

abbrev found_or_new :
    Source → Option Source → IngestionStore → Result ServiceError Source × IngestionStore
found_or_new source (some existing) s = (ok existing, s)
found_or_new source none s = added source (add_source source s)

-- `compatibility_source`
unfoldable compatibility_source :
    String
    → String
    → String
    → String
    → ℕ
    → IngestionStore
    → Result ServiceError Source × IngestionStore
unfolding add_source list_sources
compatibility_source source_id profile_id identity name now s =
    found_or_new (new_source source_id profile_id identity name now)
      (find (stands_for identity) (list_sources profile_id s)) s

abbrev optional_text : Option String → Json
optional_text none = null
optional_text (some s) = text s

abbrev wellbeing_content : String → Float → Bool → Option String → JsonFields
wellbeing_content decision_id satisfaction regret notes = field "decision_id" (text decision_id) (
    field "satisfaction" (real satisfaction)
      (field "regret" (bool regret) (field "notes" (optional_text notes) no_fields)))

module _ (content_fingerprint : JsonFields → String) (ids : Ids) (profile_id : String)
    (source : Source) (decision_id : String) (satisfaction : Float) (regret : Bool)
    (notes : Option String) (now : ℕ) where
  abbrev wellbeing_provenance : EventProvenance
  wellbeing_provenance = record {
    schema_version = pos 1;
    external_event_id = some (append "legacy_outcome:" decision_id);
    actor_type = agent;
    evidence_eligibility = contextual_only;
    correlation_id = none;
    causation_event_id = none;
    content_fingerprint =
        some (content_fingerprint (wellbeing_content decision_id satisfaction regret notes));
  }

  abbrev wellbeing_event : RawEvent
  wellbeing_event = record {
    id = ids.event;
    profile_id = profile_id;
    source_id = some source.id;
    event_type = "user_outcome";
    content = wellbeing_content decision_id satisfaction regret notes;
    created_at = now;
    ingested_at = now;
    sensitivity = "normal";
    provenance = wellbeing_provenance;
  }

  abbrev wellbeing_observation : OutcomeObservation
  wellbeing_observation = record {
    id = ids.outcome;
    profile_id = profile_id;
    source_id = source.id;
    source_event_id = ids.event;
    kind = owner_reported;
    actor_type = agent;
    status = pending;
    created_at = now;
    decision_id = some decision_id;
    external_decision_id = none;
    technical_status = none;
    disposition = none;
    satisfaction = some satisfaction;
    regret = some regret;
    confirmed_at = none;
    reason_code = some "awaiting_owner_confirmation";
  }

  abbrev wellbeing_write : IngestionWrite
  wellbeing_write = record {
    event = wellbeing_event;
    decision = none;
    resolution_observation = none;
    outcome_observation = some wellbeing_observation;
    resolution = none;
    evidence = [];
  }

  abbrev wellbeing_metadata : IngestionResult → JsonFields
  wellbeing_metadata result = field "source_id" (text source.id) (
      field "decision_id" (text decision_id)
        (field "duplicate" (bool result.duplicate) (field "status" (text "pending") no_fields)))

  abbrev finish_wellbeing :
      Result StoreError IngestionResult × IngestionStore
      → Result ServiceError IngestionResult × IngestionStore
  finish_wellbeing (err e, s) = (err (store e), s)
  finish_wellbeing (ok result, s) = (
    ok result,
    add_audit
        (audit_of ids profile_id "decision_io.wellbeing_observed" source now
          (wellbeing_metadata result))
        s,
  )

  -- `record_reported_wellbeing`
  unfoldable pub record_reported_wellbeing :
      IngestionStore → Result ServiceError IngestionResult × IngestionStore
  unfolding ingest
  record_reported_wellbeing s =
      if event_provenance_ok wellbeing_provenance
        && raw_event_ok wellbeing_event
        && outcome_ok wellbeing_observation
        && write_ok wellbeing_write
      then finish_wellbeing (ingest wellbeing_write s)
      else (err value_error, s)
