-- ===== src/Ingestion/Recording.antt =====
-- `DecisionIoService` of daemon/decision_io.py: the calls that write.
use soulmate.Prelude.{ℕ, String, Option, none, some, List, [], if◌then◌else◌}
use soulmate.Exec.{Result, ok, err, bind}
use soulmate.Text.{strip}
use soulmate.Json.{JsonFields, no_fields}
use soulmate.DecisionIo.Provenance.{EventProvenance, event_provenance_ok}
use soulmate.DecisionIo.Observations.{ResolutionObservation}
use soulmate.DecisionIo.Policy.{EventClassification, Reported, classify_event, retained_content}
use soulmate.Domain.Sources.{Source, RawEvent, raw_event_ok}
use soulmate.Domain.Decisions.{DecisionEvent, DecisionOption, DecisionResolution}
use soulmate.Domain.Evidence.{Evidence}
use soulmate.Ingestion.Records.{IngestionWrite, write_ok, IngestionResult}
use soulmate.Ingestion.Store.{IngestionStore, StoreError}
use soulmate.Ingestion.Transaction.{ingest}
use soulmate.Ingestion.Observations.{find_decision_by_external_id}
use soulmate.Ingestion.Reports.{
  EventEnvelope, Report, PromotedResolution, IngestionOutcome, Ids, ServiceError, value_error,
  policy, store,
}
use soulmate.Ingestion.Audits.{event_type_text, audit_of, ingest_metadata, add_audit}
use soulmate.Ingestion.Service.{
  Stored, map_err, construct, ingestible_source, instant, project, Promotion,
}
use soulmate.Ingestion.Matching.{resolution_observation, outcome_observation, promotion_records}

-- `_referenced_decision_id`
abbrev referenced_decision_id : Report → Option String
referenced_decision_id r = elim r.resolution [
  | some x ↦ some x.external_decision_id
  | none ↦ elim r.outcome [
    | some y ↦ some y.external_decision_id
    | none ↦ elim r.decision [ some d ↦ some d.external_decision_id | none ↦ none ]
  ]
]

-- `_existing_decision`
abbrev existing_decision : String → String → Option String → IngestionStore → Stored
existing_decision profile_id source_id none s = none
existing_decision profile_id source_id (some external_id) s =
    find_decision_by_external_id profile_id source_id external_id s

-- `None if x is None else f(x)`, for an f that may raise
abbrev pub optional {ℓ κ} :
    {A : Type ℓ} {B : Type κ}
    → (A → Result ServiceError B)
    → Option A
    → Result ServiceError (Option B)
optional f none = ok none
optional f (some a) = bind (f a) λ b. ok (some b)

abbrev promoted_evidence : Promotion → List Evidence
promoted_evidence none = []
promoted_evidence (some p) = p.1

abbrev promoted_resolution : Promotion → Option DecisionResolution
promoted_resolution none = none
promoted_resolution (some p) = some p.0

abbrev promotion_of :
    Ids → Option ResolutionObservation → Stored → ℕ → Result ServiceError Promotion
promotion_of ids none stored now = ok none
promotion_of ids (some o) none now = ok none
promotion_of ids (some o) (some d) now = promotion_records ids o d now

-- A report that has passed every test, with what it will write
pub record Prepared : Type 0 where
  pub source : Source
  pub classification : EventClassification
  pub write : IngestionWrite

module _ (canonical_content : JsonFields → String) (fingerprint : Report → String) where
  abbrev pub reported : Source → EventEnvelope → Reported JsonFields
  reported source e = record {
    provenance = source.provenance;
    event_type = e.event_type;
    reported_actor = e.actor_type;
    schema_version = e.schema_version;
    content = e.content;
    occurred_at = e.occurred_at;
    external_event_id = e.external_event_id;
  }

  abbrev event_provenance : EventClassification → Report → EventProvenance
  event_provenance c r = record {
    schema_version = r.envelope.schema_version;
    external_event_id = some (strip r.envelope.external_event_id);
    actor_type = c.actor_type;
    evidence_eligibility = c.eligibility;
    correlation_id = r.envelope.correlation_id;
    causation_event_id = r.envelope.causation_event_id;
    content_fingerprint = some (fingerprint r);
  }

  abbrev raw_event :
      Ids → String → Source → EventClassification → Report → JsonFields → ℕ → RawEvent
  raw_event ids profile_id source c r content now = record {
    id = ids.event;
    profile_id = profile_id;
    source_id = some source.id;
    event_type = event_type_text r.envelope.event_type;
    content = content;
    created_at = instant r.envelope.occurred_at;
    ingested_at = now;
    sensitivity = "normal";
    provenance = event_provenance c r;
  }

  -- The event of a report, if its constructors accept it
  unfoldable build_event :
      Ids → String → Source → EventClassification → Report → ℕ → Result ServiceError RawEvent
  build_event ids profile_id source c r now =
      bind
        (map_err policy
          (retained_content no_fields source.provenance.raw_retention_policy r.envelope.content))
        λ content.
          bind (construct value_error event_provenance_ok (event_provenance c r)) λ _.
            construct value_error raw_event_ok (raw_event ids profile_id source c r content now)

  -- `record_event` from the event to the write
  unfoldable build_write :
      Ids
      → String
      → Source
      → EventClassification
      → Report
      → RawEvent
      → Option (DecisionEvent × List DecisionOption)
      → Stored
      → Result ServiceError IngestionWrite
  unfolding resolution_observation outcome_observation promotion_records
  build_write ids profile_id source c r event projected stored =
      bind
        (optional (λ x. resolution_observation ids profile_id source event c x stored) r.resolution)
        λ observation. bind (promotion_of ids observation stored event.ingested_at) λ promotion.
          bind
            (optional (λ x. outcome_observation ids profile_id source event c x stored) r.outcome)
            λ reported_outcome. construct value_error write_ok (record {
              event = event;
              decision = projected;
              resolution_observation = observation;
              outcome_observation = reported_outcome;
              resolution = promoted_resolution promotion;
              evidence = promoted_evidence promotion;
            })

  -- All that `record_event` does before it writes
  unfoldable prepare :
      Ids → String → Option String → Report → ℕ → IngestionStore → Result ServiceError Prepared
  unfolding ingestible_source build_event build_write project
  prepare ids profile_id identity r now s =
      bind (ingestible_source profile_id r.envelope.source_id identity s) λ source.
        bind (map_err policy (classify_event canonical_content (reported source r.envelope))) λ c.
          bind (build_event ids profile_id source c r now) λ event.
            bind (optional (project ids profile_id source event) r.decision) λ projected.
              bind
                (build_write ids profile_id source c r event projected
                  (existing_decision profile_id source.id (referenced_decision_id r) s))
                λ w. ok (record { source = source; classification = c; write = w })

  abbrev promoted_by : IngestionResult → Option DecisionResolution → Option PromotedResolution
  promoted_by result none = none
  promoted_by result (some r) =
      if result.duplicate
      then none
      else some (record { decision_id = r.decision_id; chosen_option_id = r.chosen_option_id })

  abbrev finish_event :
      Ids
      → String
      → Prepared
      → Result StoreError IngestionResult × IngestionStore
      → Result ServiceError IngestionOutcome × IngestionStore
  finish_event ids profile_id p (err e, s) = (err (store e), s)
  finish_event ids profile_id p (ok result, s) =
      let promoted = promoted_by result p.write.resolution in
      (
        ok (record { result = result; classification = p.classification; promoted = promoted }),
        add_audit
            (audit_of ids profile_id "decision_io.ingest" p.source p.write.event.ingested_at
              (ingest_metadata p.source p.write.event p.classification result promoted))
            s,
      )

  abbrev run_prepared :
      Ids
      → String
      → Result ServiceError Prepared
      → IngestionStore
      → Result ServiceError IngestionOutcome × IngestionStore
  run_prepared ids profile_id (err e) s = (err e, s)
  run_prepared ids profile_id (ok p) s = finish_event ids profile_id p (ingest p.write s)

  -- `record_event`
  unfoldable pub record_event :
      Ids
      → String
      → Option String
      → Report
      → ℕ
      → IngestionStore
      → Result ServiceError IngestionOutcome × IngestionStore
  unfolding prepare ingest
  record_event ids profile_id identity r now s =
      run_prepared ids profile_id (prepare ids profile_id identity r now s) s
