-- ===== src/Ingestion/Records.antt =====
-- core/decision_io/ingestion.py: what one event may persist, and what ingestion reports.
use soulmate.Prelude.{
  ℕ, String, Bool, true, false, not, ◌&&◌, ◌||◌, Option, none, some, is_none, List, ◌==◌, any,
}
use soulmate.DecisionIo.Provenance.{ObservationStatus, is_nil}
use soulmate.DecisionIo.Observations.{ResolutionObservation, OutcomeObservation, is_confirmed}
use soulmate.Domain.Sources.{RawEvent}
use soulmate.Domain.Decisions.{DecisionEvent, DecisionOption, DecisionResolution}
use soulmate.Domain.Evidence.{Evidence}

pub record IngestionWrite : Type 0 where
  pub event : RawEvent
  pub decision : Option (DecisionEvent × List DecisionOption)
  pub resolution_observation : Option ResolutionObservation
  pub outcome_observation : Option OutcomeObservation
  pub resolution : Option DecisionResolution
  pub evidence : List Evidence

-- `==` on optional texts
abbrev pub eq_text : Option String → Option String → Bool
eq_text none none = true
eq_text none (some t) = false
eq_text (some s) none = false
eq_text (some s) (some t) = s == t

abbrev misreported : RawEvent → Option String → Bool
misreported e none = false
misreported e (some event_id) = not (event_id == e.id)

abbrev resolution_event : Option ResolutionObservation → Option String
resolution_event none = none
resolution_event (some o) = some o.source_event_id

abbrev outcome_event : Option OutcomeObservation → Option String
outcome_event none = none
outcome_event (some o) = some o.source_event_id

abbrev foreign_decision : RawEvent → Option (DecisionEvent × List DecisionOption) → Bool
foreign_decision e none = false
foreign_decision e (some d) = not (eq_text d.0.source_id e.source_id)

-- A resolution that does not match its confirmed observation
abbrev pub unmatched_resolution :
    RawEvent → Option ResolutionObservation → Option DecisionResolution → Bool
unmatched_resolution e o none = false
unmatched_resolution e none (some r) = true
unmatched_resolution e (some o) (some r) =
    not (is_confirmed o.status)
    || not (eq_text o.decision_id (some r.decision_id))
    || not (eq_text o.chosen_option_id (some r.chosen_option_id))
    || not (r.source_event_id == e.id)

-- `IngestionWrite.__post_init__` raises unless this holds.
unfoldable pub write_ok : IngestionWrite → Bool
write_ok w =
    not (is_none w.event.source_id || is_none w.event.provenance.external_event_id)
    && not (is_none w.event.provenance.content_fingerprint)
    && not (misreported w.event (resolution_event w.resolution_observation))
    && not (misreported w.event (outcome_event w.outcome_observation))
    && not (foreign_decision w.event w.decision)
    && not (not (is_nil w.evidence) && is_none w.resolution)
    && not (unmatched_resolution w.event w.resolution_observation w.resolution)
    && not (any (λ (e : Evidence). not (e.source_event_id == w.event.id)) w.evidence)

pub record IngestionResult : Type 0 where
  pub event_id : String
  pub duplicate : Bool
  pub decision_id : Option String
  pub resolution_observation_id : Option String
  pub outcome_observation_id : Option String
  pub observation_status : Option ObservationStatus

pub record SourceObservationCounts : Type 0 where
  pub source_id : String
  pub raw_event_count : ℕ
  pub decision_count : ℕ
  pub resolution_observation_count : ℕ
  pub outcome_observation_count : ℕ
  pub unmatched_observation_count : ℕ

pub record DecisionIoSourceRemoval : Type 0 where
  pub source_id : String
  pub raw_event_count : ℕ
  pub decision_count : ℕ
  pub observation_count : ℕ
  pub evidence_count : ℕ
