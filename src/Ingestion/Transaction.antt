-- ===== src/Ingestion/Transaction.antt =====
-- `SqliteDecisionIoRepository.ingest` of storage/decision_io.py: the transaction that persists an event
-- with its projection and its resolution, and the replay of an event that is stored.
use soulmate.Prelude.{
  Bool, true, false, not, ◌&&◌, Option, none, some, List, ◌==◌, find, map_option, update_where,
  if◌then◌else◌,
}
use soulmate.Exec.{Result, ok, err, bind, reject_if}
use soulmate.DecisionIo.Provenance.{ObservationStatus}
use soulmate.DecisionIo.Observations.{ResolutionObservation, OutcomeObservation}
use soulmate.Domain.Sources.{RawEvent}
use soulmate.Domain.Decisions.{DecisionEvent, DecisionOption, DecisionResolution, is_open}
use soulmate.Domain.Evidence.{Evidence}
use soulmate.Ingestion.Records.{IngestionWrite, IngestionResult, eq_text}
use soulmate.Ingestion.Store.{
  insert_if, has_event, IngestionStore, StoreError, Write, both_equal, resolution_clash,
  external_event_conflict, option_not_found, decision_already_resolved, insert_event,
  insert_decision, insert_resolution_observation, insert_outcome_observation, insert_evidence,
  bump_if_any, option_belongs, decision_at, close_decision,
}

-- The rest of `_apply_resolution`, once the decision has been read
unfoldable pub resolve_decision :
    DecisionResolution → List Evidence → DecisionEvent → IngestionStore → Write
unfolding insert_evidence
resolve_decision r evidence d s =
    bind (reject_if (not (is_open d.status)) decision_already_resolved) λ _.
      bind (insert_if (has_event r.source_event_id s) resolution_clash r s.resolutions) λ rows.
        bind
          (insert_evidence evidence (record s {
            resolutions = rows;
            decisions = update_where (decision_at d.id) close_decision s.decisions;
          }))
          λ s'. ok (bump_if_any evidence d.profile_id s')

abbrev with_decision :
    DecisionResolution → List Evidence → Option DecisionEvent → IngestionStore → Write
with_decision r evidence none s = err option_not_found
with_decision r evidence (some d) s =
    bind
      (reject_if
        (not (
          option_belongs (find (λ (o : DecisionOption). o.id == r.chosen_option_id) s.options)
            d.id))
        option_not_found)
      λ _. resolve_decision r evidence d s

-- `_apply_resolution`
unfoldable pub apply_resolution : DecisionResolution → List Evidence → IngestionStore → Write
unfolding resolve_decision
apply_resolution r evidence s =
    with_decision r evidence (find (decision_at r.decision_id) s.decisions) s

abbrev pub apply_if_any : Option DecisionResolution → List Evidence → IngestionStore → Write
apply_if_any none evidence s = ok s
apply_if_any (some r) evidence s = apply_resolution r evidence s

-- A transaction commits, or leaves the store as it was.
abbrev pub atomic {ℓ} :
    {A : Type ℓ}
    → Result StoreError (A × IngestionStore)
    → IngestionStore
    → Result StoreError A × IngestionStore
atomic (ok (a, s')) s = (ok a, s')
atomic (err e) s = (err e, s)

abbrev status_after :
    Option ResolutionObservation → Option OutcomeObservation → Option ObservationStatus
status_after o (some p) = some p.status
status_after (some o) none = some o.status
status_after none none = none

abbrev pub ingested : IngestionWrite → IngestionResult
ingested w = record {
  event_id = w.event.id;
  duplicate = false;
  decision_id = map_option (λ (d : DecisionEvent × List DecisionOption). d.0.id) w.decision;
  resolution_observation_id =
      map_option (λ (o : ResolutionObservation). o.id) w.resolution_observation;
  outcome_observation_id = map_option (λ (o : OutcomeObservation). o.id) w.outcome_observation;
  observation_status = status_after w.resolution_observation w.outcome_observation;
}

-- The writes of `ingest` for an event that is new
unfoldable pub ingest_new :
    IngestionWrite → IngestionStore → Result StoreError (IngestionResult × IngestionStore)
unfolding insert_event insert_decision insert_resolution_observation insert_outcome_observation
    apply_resolution
ingest_new w s = bind (insert_event w.event s) λ s1. bind (insert_decision w.decision s1) λ s2.
    bind (insert_resolution_observation w.resolution_observation s2) λ s3.
      bind (insert_outcome_observation w.outcome_observation s3)
        λ s4. bind (apply_if_any w.resolution w.evidence s4) λ s5. ok (ingested w, s5)

-- SQL `=`, which is false where a side is NULL
abbrev pub same_event : RawEvent → RawEvent → Bool
same_event event row =
    both_equal row.source_id event.source_id
    && both_equal row.provenance.external_event_id event.provenance.external_event_id

abbrev replayed_status :
    Option ResolutionObservation → Option OutcomeObservation → Option ObservationStatus
replayed_status (some o) p = some o.status
replayed_status none (some p) = some p.status
replayed_status none none = none

-- `_replay`
unfoldable pub replay : RawEvent → IngestionStore → IngestionResult
replay existing s =
    let resolution =
      find (λ (o : ResolutionObservation). o.source_event_id == existing.id)
        s.resolution_observations in
    let outcome =
      find (λ (o : OutcomeObservation). o.source_event_id == existing.id) s.outcome_observations in
    let decision =
      find (λ (d : DecisionEvent). both_equal d.source_event_id (some existing.id)) s.decisions in
    record {
      event_id = existing.id;
      duplicate = true;
      decision_id = map_option (λ (d : DecisionEvent). d.id) decision;
      resolution_observation_id = map_option (λ (o : ResolutionObservation). o.id) resolution;
      outcome_observation_id = map_option (λ (o : OutcomeObservation). o.id) outcome;
      observation_status = replayed_status resolution outcome;
    }

abbrev pub ingest_after :
    IngestionWrite
    → Option RawEvent
    → IngestionStore
    → Result StoreError IngestionResult × IngestionStore
ingest_after w none s = atomic (ingest_new w s) s
ingest_after w (some existing) s =
    if not (eq_text existing.provenance.content_fingerprint w.event.provenance.content_fingerprint)
    then (err external_event_conflict, s)
    else (ok (replay existing s), s)

-- `ingest`
unfoldable pub ingest :
    IngestionWrite → IngestionStore → Result StoreError IngestionResult × IngestionStore
unfolding ingest_new replay
ingest w s = ingest_after w (find (same_event w.event) s.events) s
