-- ===== src/Ingestion/Observations.antt =====
-- The repository's reads of observations and the owner's changes of their status.
use soulmate.Prelude.{
  ℕ, String, Bool, true, false, not, ◌&&◌, ◌||◌, Option, none, some, List, ◌==◌, any, find, filter,
  sort_by, update_where, if◌then◌else◌, ltb, eqb,
}
use soulmate.Exec.{Result, ok, bind}
use soulmate.Text.Order.{lt_text}
use soulmate.DecisionIo.Provenance.{ObservationStatus, unmatched, pending, confirmed, rejected}
use soulmate.DecisionIo.Observations.{ResolutionObservation, OutcomeObservation, is_confirmed}
use soulmate.Domain.Decisions.{DecisionEvent, DecisionOption, DecisionResolution}
use soulmate.Domain.Evidence.{Evidence}
use soulmate.Ingestion.Records.{eq_text}
use soulmate.Ingestion.Store.{IngestionStore, StoreError, both_equal}
use soulmate.Ingestion.Transaction.{apply_resolution, atomic}

abbrev observation_index : ObservationStatus → ℕ
observation_index unmatched = 0
observation_index pending = 1
observation_index confirmed = 2
observation_index rejected = 3

abbrev pub eq_status : ObservationStatus → ObservationStatus → Bool
eq_status a b = eqb (observation_index a) (observation_index b)

abbrev pub observed_at : String → ResolutionObservation → Bool
observed_at id o = o.id == id

abbrev confirm_row : ℕ → ResolutionObservation → ResolutionObservation
confirm_row confirmed_at o = record o {
  status = confirmed;
  confirmed_at = some confirmed_at;
  reason_code = some "owner_confirmed";
}

-- The test of `confirm_resolution_observation`
abbrev pub confirmable : ObservationStatus → DecisionResolution → ResolutionObservation → Bool
confirmable expected r o =
    eq_status o.status expected
    && eq_text o.decision_id (some r.decision_id)
    && eq_text o.chosen_option_id (some r.chosen_option_id)
    && o.source_event_id == r.source_event_id

abbrev pub confirm_found :
    ObservationStatus
    → DecisionResolution
    → List Evidence
    → ℕ
    → Option ResolutionObservation
    → IngestionStore
    → Result StoreError (Bool × IngestionStore)
confirm_found expected r evidence confirmed_at none s = ok (false, s)
confirm_found expected r evidence confirmed_at (some o) s =
    if confirmable expected r o
    then bind
        (apply_resolution r evidence (record s {
          resolution_observations =
              update_where (observed_at o.id) (confirm_row confirmed_at) s.resolution_observations;
        }))
        (λ s'. ok (true, s'))
    else ok (false, s)

unfoldable pub confirm_resolution_observation :
    String
    → ObservationStatus
    → DecisionResolution
    → List Evidence
    → ℕ
    → IngestionStore
    → Result StoreError Bool × IngestionStore
unfolding apply_resolution
confirm_resolution_observation id expected r evidence confirmed_at s =
    atomic
      (confirm_found expected r evidence confirmed_at
        (find (observed_at id) s.resolution_observations) s)
      s

abbrev externally_named : String → String → String → DecisionEvent → Bool
externally_named profile_id source_id external_id d =
    d.profile_id == profile_id
    && both_equal d.source_id (some source_id)
    && both_equal d.external_decision_id (some external_id)

abbrev options_of : String → IngestionStore → List DecisionOption
options_of decision_id s =
    sort_by (λ (a b : DecisionOption). not (lt_text b.id a.id))
      (filter (λ (o : DecisionOption). o.decision_id == decision_id) s.options)

abbrev with_options :
    Option DecisionEvent → IngestionStore → Option (DecisionEvent × List DecisionOption)
with_options none s = none
with_options (some d) s = some (d, options_of d.id s)

unfoldable pub find_decision_by_external_id :
    String → String → String → IngestionStore → Option (DecisionEvent × List DecisionOption)
find_decision_by_external_id profile_id source_id external_id s =
    with_options (find (externally_named profile_id source_id external_id) s.decisions) s

-- `SqliteDecisionRepository.get`
unfoldable pub get_decision : String → IngestionStore → Option (DecisionEvent × List DecisionOption)
get_decision id s = with_options (find (λ (d : DecisionEvent). d.id == id) s.decisions) s

-- ORDER BY created_at DESC, id DESC
abbrev pub newest : ℕ → String → ℕ → String → Bool
newest at id at' id' = not (ltb at at' || (eqb at at' && lt_text id id'))

abbrev status_is : Option ObservationStatus → ObservationStatus → Bool
status_is none s = true
status_is (some wanted) s = eq_status s wanted

unfoldable list_resolution_observations :
    String → Option ObservationStatus → IngestionStore → List ResolutionObservation
list_resolution_observations profile_id status s =
    sort_by (λ (a b : ResolutionObservation). newest a.created_at a.id b.created_at b.id)
      (filter
        (λ (o : ResolutionObservation). o.profile_id == profile_id && status_is status o.status)
        s.resolution_observations)

unfoldable list_outcome_observations :
    String → Option ObservationStatus → IngestionStore → List OutcomeObservation
list_outcome_observations profile_id status s =
    sort_by (λ (a b : OutcomeObservation). newest a.created_at a.id b.created_at b.id)
      (filter (λ (o : OutcomeObservation). o.profile_id == profile_id && status_is status o.status)
        s.outcome_observations)

abbrev own_resolution : String → Option ResolutionObservation → Option ResolutionObservation
own_resolution profile_id none = none
own_resolution profile_id (some o) = if o.profile_id == profile_id then some o else none

abbrev own_outcome : String → Option OutcomeObservation → Option OutcomeObservation
own_outcome profile_id none = none
own_outcome profile_id (some o) = if o.profile_id == profile_id then some o else none

unfoldable pub get_resolution_observation :
    String → String → IngestionStore → Option ResolutionObservation
get_resolution_observation profile_id id s =
    own_resolution profile_id (find (observed_at id) s.resolution_observations)

unfoldable get_outcome_observation : String → String → IngestionStore → Option OutcomeObservation
get_outcome_observation profile_id id s =
    own_outcome profile_id (find (λ (o : OutcomeObservation). o.id == id) s.outcome_observations)

abbrev confirmed_time : ObservationStatus → Option ℕ → Option ℕ
confirmed_time status changed_at = if is_confirmed status then changed_at else none

abbrev resolution_expected : String → ObservationStatus → ResolutionObservation → Bool
resolution_expected id expected o = o.id == id && eq_status o.status expected

abbrev outcome_expected : String → ObservationStatus → OutcomeObservation → Bool
outcome_expected id expected o = o.id == id && eq_status o.status expected

abbrev mark_resolution :
    ObservationStatus → String → Option ℕ → ResolutionObservation → ResolutionObservation
mark_resolution status reason changed_at o = record o {
  status = status;
  reason_code = some reason;
  confirmed_at = confirmed_time status changed_at;
}

abbrev mark_outcome :
    ObservationStatus → String → Option ℕ → OutcomeObservation → OutcomeObservation
mark_outcome status reason changed_at o = record o {
  status = status;
  reason_code = some reason;
  confirmed_at = confirmed_time status changed_at;
}

unfoldable pub set_resolution_observation_status :
    String
    → ObservationStatus
    → ObservationStatus
    → String
    → Option ℕ
    → IngestionStore
    → Bool × IngestionStore
set_resolution_observation_status id expected status reason changed_at s = (
  any (resolution_expected id expected) s.resolution_observations,
  record s {
    resolution_observations =
        update_where (resolution_expected id expected) (mark_resolution status reason changed_at)
          s.resolution_observations;
  },
)

unfoldable pub set_outcome_observation_status :
    String
    → ObservationStatus
    → ObservationStatus
    → String
    → Option ℕ
    → IngestionStore
    → Bool × IngestionStore
set_outcome_observation_status id expected status reason changed_at s = (
  any (outcome_expected id expected) s.outcome_observations,
  record s {
    outcome_observations =
        update_where (outcome_expected id expected) (mark_outcome status reason changed_at)
          s.outcome_observations;
  },
)
