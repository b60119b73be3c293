-- ===== src/Ingestion/Matching.antt =====
-- `DecisionIoService` of daemon/decision_io.py: observations of the decisions that reports name, and the
-- evidence that a confirmed choice becomes.
use soulmate.Prelude.{
  ℕ, String, false, ◌&&◌, ◌||◌, Option, none, some, is_none, is_some, List, if◌then◌else◌,
}
use soulmate.Exec.{Result, ok, bind, reject_if}
use soulmate.Float.{one_float}
use soulmate.DecisionIo.Provenance.{OutcomeKind}
use soulmate.DecisionIo.Observations.{
  ResolutionObservation, resolution_ok, OutcomeObservation, outcome_ok, is_confirmed, is_technical,
  is_user_behavior,
}
use soulmate.DecisionIo.Policy.{EventClassification, outcome_kind_for}
use soulmate.Domain.Sources.{Source, RawEvent}
use soulmate.Domain.Decisions.{DecisionEvent, DecisionOption, DecisionResolution}
use soulmate.Learning.Choice.{resolution_evidence}
use soulmate.Ingestion.Reports.{
  ResolutionReport, OutcomeReport, Ids, ServiceError, option_not_found, technical_status_required,
  disposition_required, wellbeing_not_reportable, value_error, policy, learning,
}
use soulmate.Ingestion.Service.{
  Stored, Promotion, map_err, construct, chosen_in, already_resolved, stored_id, confirms,
  matched_status, resolution_reason, only_if,
}

module _ (ids : Ids) where
  abbrev reported_resolution :
      String
      → Source
      → RawEvent
      → EventClassification
      → ResolutionReport
      → Stored
      → ResolutionObservation
  reported_resolution profile_id source event c report stored = record {
    id = ids.observation;
    profile_id = profile_id;
    source_id = source.id;
    source_event_id = event.id;
    actor_type = c.actor_type;
    status = matched_status (confirms c stored) stored;
    disposition = report.disposition;
    created_at = event.ingested_at;
    decision_id = stored_id stored;
    external_decision_id = some report.external_decision_id;
    chosen_option_id = chosen_in report stored;
    external_option_id = some report.external_option_id;
    correlation_confidence = if is_none stored then none else some one_float;
    confirmed_at = if confirms c stored then some event.ingested_at else none;
    reason_code = some (resolution_reason (confirms c stored) (already_resolved stored));
  }

  -- `_resolution_observation`
  unfoldable pub resolution_observation :
      String
      → Source
      → RawEvent
      → EventClassification
      → ResolutionReport
      → Stored
      → Result ServiceError ResolutionObservation
  resolution_observation profile_id source event c report stored =
      bind (reject_if (is_some stored && is_none (chosen_in report stored)) option_not_found) λ _.
        construct value_error resolution_ok
          (reported_resolution profile_id source event c report stored)

  abbrev pub reported_outcome :
      String
      → Source
      → RawEvent
      → EventClassification
      → OutcomeKind
      → OutcomeReport
      → Stored
      → OutcomeObservation
  reported_outcome profile_id source event c kind report stored = record {
    id = ids.outcome;
    profile_id = profile_id;
    source_id = source.id;
    source_event_id = event.id;
    kind = kind;
    actor_type = c.actor_type;
    status = matched_status false stored;
    created_at = event.ingested_at;
    decision_id = stored_id stored;
    external_decision_id = some report.external_decision_id;
    technical_status = only_if (is_technical kind) report.technical_status;
    disposition = only_if (is_user_behavior kind) report.disposition;
    satisfaction = none;
    regret = none;
    confirmed_at = none;
    reason_code = some "observed_only";
  }

  -- `_outcome_observation`
  unfoldable pub outcome_observation :
      String
      → Source
      → RawEvent
      → EventClassification
      → OutcomeReport
      → Stored
      → Result ServiceError OutcomeObservation
  outcome_observation profile_id source event c report stored =
      bind (map_err policy (outcome_kind_for c.event_type)) λ kind.
        bind
          (reject_if (is_technical kind && is_none report.technical_status)
            technical_status_required)
          λ _.
            bind
              (reject_if (is_user_behavior kind && is_none report.disposition) disposition_required)
              λ _.
                bind
                  (reject_if (is_some report.satisfaction || is_some report.regret)
                    wellbeing_not_reportable)
                  λ _.
                    construct value_error outcome_ok
                      (reported_outcome profile_id source event c kind report stored)

  abbrev promoted_record : ResolutionObservation → DecisionEvent → String → ℕ → DecisionResolution
  promoted_record o d chosen now = record {
    id = ids.resolution;
    decision_id = d.id;
    chosen_option_id = chosen;
    source_event_id = o.source_event_id;
    created_at = now;
  }

  abbrev promote_choice :
      ResolutionObservation
      → DecisionEvent × List DecisionOption
      → ℕ
      → Option String
      → Result ServiceError Promotion
  promote_choice o stored now none = ok none
  promote_choice o stored now (some chosen) =
      let r = promoted_record o stored.0 chosen now in
      bind (map_err learning (resolution_evidence r stored.0 stored.0.profile_id now stored.1))
        λ evidence. ok (some (r, evidence))

  -- `_promotion_records`
  unfoldable pub promotion_records :
      ResolutionObservation
      → DecisionEvent × List DecisionOption
      → ℕ
      → Result ServiceError Promotion
  promotion_records o stored now =
      if is_confirmed o.status then promote_choice o stored now o.chosen_option_id else ok none
