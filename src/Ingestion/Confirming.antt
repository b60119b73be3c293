-- ===== src/Ingestion/Confirming.antt =====
-- `DecisionIoService.confirm_resolution` of daemon/decision_io.py.
use soulmate.Prelude.{
  ℕ, String, Bool, true, false, not, ◌||◌, Option, none, some, is_none, List, ◌==◌,
}
use soulmate.Exec.{Result, ok, err, bind, reject_if}
use soulmate.DecisionIo.Provenance.{pending, confirmed, ObservationStatus}
use soulmate.DecisionIo.Observations.{ResolutionObservation}
use soulmate.Domain.Decisions.{DecisionEvent, DecisionOption, DecisionResolution, is_open}
use soulmate.Ingestion.Store.{IngestionStore, StoreError}
use soulmate.Ingestion.Observations.{
  get_decision, get_resolution_observation, confirm_resolution_observation,
}
use soulmate.Ingestion.Reports.{
  PromotedResolution, Ids, ServiceError, store, observation_not_found, observation_not_confirmable,
  decision_not_found, decision_already_resolved, observation_state_changed,
}
use soulmate.Ingestion.Service.{Stored, Promotion}
use soulmate.Ingestion.Matching.{promotion_records}

-- The tests of `confirm_resolution` on what it has read
abbrev confirmable_decision :
    String → Stored → Result ServiceError (DecisionEvent × List DecisionOption)
confirmable_decision profile_id none = err decision_not_found
confirmable_decision profile_id (some d) =
    bind (reject_if (not (d.0.profile_id == profile_id)) decision_not_found)
      λ _. bind (reject_if (not (is_open d.0.status)) decision_already_resolved) λ _. ok d

abbrev stored_decision : Option String → IngestionStore → Stored
stored_decision none s = none
stored_decision (some id) s = get_decision id s

abbrev is_pending : ObservationStatus → Bool
is_pending pending = true
is_pending s = false

abbrev pub confirm_read :
    Ids
    → String
    → ℕ
    → Option ResolutionObservation
    → IngestionStore
    → Result ServiceError (ResolutionObservation × Promotion)
confirm_read ids profile_id now none s = err observation_not_found
confirm_read ids profile_id now (some o) s =
    bind
      (reject_if (not (is_pending o.status) || is_none o.decision_id) observation_not_confirmable)
      λ _. bind (confirmable_decision profile_id (stored_decision o.decision_id s)) λ d.
        bind
          (promotion_records ids (record o { status = confirmed; confirmed_at = some now }) d now)
          λ promotion. ok (o, promotion)

abbrev pub confirmed_result :
    DecisionResolution
    → Result StoreError Bool × IngestionStore
    → Result ServiceError PromotedResolution × IngestionStore
confirmed_result r (err e, s) = (err (store e), s)
confirmed_result r (ok false, s) = (err observation_state_changed, s)
confirmed_result r (ok true, s) =
    (ok (record { decision_id = r.decision_id; chosen_option_id = r.chosen_option_id }), s)

abbrev confirm_write :
    ℕ
    → Result ServiceError (ResolutionObservation × Promotion)
    → IngestionStore
    → Result ServiceError PromotedResolution × IngestionStore
confirm_write now (err e) s = (err e, s)
confirm_write now (ok (o, none)) s = (err observation_state_changed, s)
confirm_write now (ok (o, some p)) s =
    confirmed_result p.0 (confirm_resolution_observation o.id pending p.0 p.1 now s)

-- `confirm_resolution`
unfoldable pub confirm_resolution :
    Ids
    → String
    → String
    → ℕ
    → IngestionStore
    → Result ServiceError PromotedResolution × IngestionStore
unfolding promotion_records get_resolution_observation get_decision confirm_resolution_observation
confirm_resolution ids profile_id observation_id now s =
    confirm_write now
      (confirm_read ids profile_id now (get_resolution_observation profile_id observation_id s) s) s
