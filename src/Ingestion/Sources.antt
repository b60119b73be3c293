-- ===== src/Ingestion/Sources.antt =====
-- The repository of sources, and what the Decision I/O repository counts and removes of a source.
use soulmate.Prelude.{
  ℕ, ◌+◌, String, Bool, true, false, not, ◌&&◌, ◌||◌, Option, none, some, List, ◌==◌, any, find,
  filter, sort_by, delete_where, length, if◌then◌else◌, eqb,
}
use soulmate.Exec.{Result, ok, err, bind, reject_if}
use soulmate.DecisionIo.Provenance.{is_agent_push}
use soulmate.DecisionIo.Observations.{ResolutionObservation, OutcomeObservation, is_unmatched}
use soulmate.Domain.Sources.{Source, RawEvent}
use soulmate.Domain.Decisions.{DecisionEvent, DecisionOption, DecisionResolution}
use soulmate.Domain.Evidence.{Evidence}
use soulmate.Keys.Aliases.{Error}
use soulmate.Keys.Store.{KeyStore, bump_evidence_revision}
use soulmate.Keys.Supported.{prune_unsupported_keys}
use soulmate.Ingestion.Records.{SourceObservationCounts, DecisionIoSourceRemoval}
use soulmate.Ingestion.Store.{IngestionStore, StoreError, integrity_error, insert, both_equal}
use soulmate.Ingestion.Observations.{newest}

abbrev source_clash : Source → Source → Bool
source_clash a b = a.id == b.id

abbrev add_rows :
    Result StoreError (List Source) → IngestionStore → Result StoreError (Unit {0}) × IngestionStore
add_rows (err e) s = (err e, s)
add_rows (ok rows) s = (ok tt, record s { sources = rows })

-- `SqliteSourceRepository.add`
unfoldable pub add_source : Source → IngestionStore → Result StoreError (Unit {0}) × IngestionStore
add_source source s = add_rows (insert source_clash source s.sources) s

unfoldable pub get_source : String → IngestionStore → Option Source
get_source id s = find (λ (x : Source). x.id == id) s.sources

unfoldable pub list_sources : String → IngestionStore → List Source
list_sources profile_id s =
    sort_by (λ (a b : Source). newest a.created_at a.id b.created_at b.id)
      (filter (λ (x : Source). x.profile_id == profile_id) s.sources)

abbrev pub event_from : String → RawEvent → Bool
event_from source_id e = both_equal e.source_id (some source_id)

abbrev pub decision_from : String → DecisionEvent → Bool
decision_from source_id d = both_equal d.source_id (some source_id)

abbrev pub resolution_from : String → ResolutionObservation → Bool
resolution_from source_id o = o.source_id == source_id

abbrev pub outcome_from : String → OutcomeObservation → Bool
outcome_from source_id o = o.source_id == source_id

abbrev count {ℓ} : {A : Type ℓ} → (A → Bool) → List A → ℕ
count p rows = length (filter p rows)

unfoldable counts_for_source : String → String → IngestionStore → SourceObservationCounts
counts_for_source profile_id source_id s = record {
  source_id = source_id;
  raw_event_count = count (event_from source_id) s.events;
  decision_count = count (λ d. decision_from source_id d && d.profile_id == profile_id) s.decisions;
  resolution_observation_count =
      count (λ o. resolution_from source_id o && o.profile_id == profile_id)
        s.resolution_observations;
  outcome_observation_count =
      count (λ o. outcome_from source_id o && o.profile_id == profile_id) s.outcome_observations;
  unmatched_observation_count =
      count (λ o. resolution_from source_id o && is_unmatched o.status) s.resolution_observations
      + count (λ o. outcome_from source_id o && is_unmatched o.status) s.outcome_observations;
}

-- `source_event_id IN (SELECT id FROM raw_events WHERE source_id = ...)`
abbrev event_of : String → List RawEvent → String → Bool
event_of source_id events event_id =
    any (λ (e : RawEvent). event_from source_id e && e.id == event_id) events

abbrev pub deleted_decision : String → List DecisionEvent → String → Bool
deleted_decision source_id decisions id =
    any (λ (d : DecisionEvent). decision_from source_id d && d.id == id) decisions

abbrev in_deleted : String → List DecisionEvent → Option String → Bool
in_deleted source_id decisions none = false
in_deleted source_id decisions (some id) = deleted_decision source_id decisions id

-- An option that goes with its decision
abbrev deleted_option : String → List DecisionEvent → List DecisionOption → Option String → Bool
deleted_option source_id decisions options none = false
deleted_option source_id decisions options (some id) =
    any (λ (o : DecisionOption). deleted_decision source_id decisions o.decision_id && o.id == id)
      options

-- DELETE of the source's observations and decisions. ON DELETE CASCADE takes the options, the
-- resolutions and the observations of other sources along with their decision, and the observations
-- of other sources along with the option that they name.
unfoldable pub without_decisions : String → IngestionStore → IngestionStore
without_decisions source_id s = record s {
  resolution_observations =
      delete_where
        (λ (o : ResolutionObservation).
          resolution_from source_id o
          || in_deleted source_id s.decisions o.decision_id
          || deleted_option source_id s.decisions s.options o.chosen_option_id)
        s.resolution_observations;
  outcome_observations =
      delete_where
        (λ (o : OutcomeObservation).
          outcome_from source_id o || in_deleted source_id s.decisions o.decision_id)
        s.outcome_observations;
  options =
      delete_where (λ (o : DecisionOption). deleted_decision source_id s.decisions o.decision_id)
        s.options;
  resolutions =
      delete_where
        (λ (r : DecisionResolution). deleted_decision source_id s.decisions r.decision_id)
        s.resolutions;
  decisions = delete_where (decision_from source_id) s.decisions;
}

abbrev pub derived_from : String → IngestionStore → Evidence → Bool
derived_from source_id s e = event_of source_id s.events e.source_event_id

-- DELETE of the evidence, the events and the source. A resolution that is left restricts the events
-- that it names; an observation that is left goes with its event.
unfoldable pub without_events : String → IngestionStore → IngestionStore
without_events source_id s = record s {
  keys = record s.keys { evidence = delete_where (derived_from source_id s) s.keys.evidence };
  resolution_observations =
      delete_where (λ (o : ResolutionObservation). event_of source_id s.events o.source_event_id)
        s.resolution_observations;
  outcome_observations =
      delete_where (λ (o : OutcomeObservation). event_of source_id s.events o.source_event_id)
        s.outcome_observations;
  events = delete_where (event_from source_id) s.events;
  sources = delete_where (λ (x : Source). x.id == source_id) s.sources;
}

abbrev pub restricted : String → IngestionStore → Bool
restricted source_id s =
    any (λ (r : DecisionResolution). event_of source_id s.events r.source_event_id) s.resolutions

abbrev pub removal_counts : String → IngestionStore → DecisionIoSourceRemoval
removal_counts source_id s = record {
  source_id = source_id;
  raw_event_count = count (event_from source_id) s.events;
  decision_count = count (decision_from source_id) s.decisions;
  observation_count =
      count (resolution_from source_id) s.resolution_observations
      + count (outcome_from source_id) s.outcome_observations;
  evidence_count = count (derived_from source_id s) s.keys.evidence;
}

-- The error of a transaction: of the database, or of the pruning, which never fails
pub data RemovalError : Type 0 where
  violates : StoreError → RemovalError
  prunes : Error → RemovalError

abbrev pub pruned_keys :
    String
    → Result Error (Unit {0}) × KeyStore
    → IngestionStore
    → Result RemovalError IngestionStore
pruned_keys profile_id (ok u, keys) s =
    ok (record s { keys = bump_evidence_revision profile_id keys })
pruned_keys profile_id (err e, keys) s = err (prunes e)

abbrev pub prune_if : Bool → String → IngestionStore → Result RemovalError IngestionStore
prune_if false profile_id s = ok s
prune_if true profile_id s = pruned_keys profile_id (prune_unsupported_keys profile_id s.keys) s

abbrev pub removable : String → Option Source → Bool
removable profile_id none = false
removable profile_id (some x) =
    x.profile_id == profile_id && is_agent_push x.provenance.acquisition_method

abbrev pub Removed : Type 0
Removed = Result RemovalError (Option DecisionIoSourceRemoval)

abbrev pub commit_removal :
    DecisionIoSourceRemoval
    → Result RemovalError IngestionStore
    → IngestionStore
    → Removed × IngestionStore
commit_removal counts (ok s') s = (ok (some counts), s')
commit_removal counts (err e) s = (err e, s)

-- `remove_source`
unfoldable pub remove_source : String → String → IngestionStore → Removed × IngestionStore
unfolding without_decisions without_events get_source
remove_source profile_id source_id s =
    if removable profile_id (get_source source_id s)
    then (let counts = removal_counts source_id s in
        let s1 = without_decisions source_id s in
        commit_removal counts
          (bind (reject_if (restricted source_id s1) (violates integrity_error)) λ _.
            prune_if (not (eqb counts.evidence_count 0)) profile_id (without_events source_id s1))
          s)
    else (ok none, s)
