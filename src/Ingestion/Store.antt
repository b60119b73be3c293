-- ===== src/Ingestion/Store.antt =====
-- `SqliteDecisionIoRepository` of storage/decision_io.py: one transaction persists an event with its
-- projection, or nothing. The tables are lists of the records that their rows are read as; a unique
-- index or a foreign key that a row breaks is an `integrity_error`.
use soulmate.Prelude.{
  String, Bool, true, false, not, ◌&&◌, ◌||◌, Option, none, some, is_none, List, [], ◌∷◌, ◌++◌,
  ◌==◌, any, update_where, if◌then◌else◌,
}
use soulmate.Exec.{Result, ok, err, bind, reject_if}
use soulmate.DecisionIo.Provenance.{ObservationStatus, pending}
use soulmate.DecisionIo.Observations.{ResolutionObservation, OutcomeObservation, is_unmatched}
use soulmate.Domain.Sources.{Source, RawEvent, AuditEvent}
use soulmate.Domain.Decisions.{DecisionEvent, DecisionOption, DecisionResolution, resolved}
use soulmate.Domain.Evidence.{Evidence}
use soulmate.Keys.Store.{KeyStore, bump_evidence_revision}
use soulmate.Ingestion.Records.{eq_text}

pub record IngestionStore : Type 0 where
  pub sources : List Source
  pub events : List RawEvent
  pub decisions : List DecisionEvent
  pub options : List DecisionOption
  pub resolutions : List DecisionResolution
  pub resolution_observations : List ResolutionObservation
  pub outcome_observations : List OutcomeObservation
  pub keys : KeyStore
  pub audits : List AuditEvent

-- `DecisionIoConflictError`, the reason codes of `DecisionIoError` that the repository raises, and
-- the `IntegrityError` of the database
pub data StoreError : Type 0 where
  external_event_conflict option_not_found decision_already_resolved integrity_error : StoreError

abbrev pub Write : Type 0
Write = Result StoreError IngestionStore

-- INSERT of a row into a table, of whose rows none may clash with it
abbrev pub insert {ℓ} : {A : Type ℓ} → (A → A → Bool) → A → List A → Result StoreError (List A)
insert clash row rows = if any (clash row) rows then err integrity_error else ok (rows ++ row ∷ [])

-- The same, of a row whose foreign keys name stored rows only if `fits`
abbrev pub insert_if {ℓ} :
    {A : Type ℓ} → Bool → (A → A → Bool) → A → List A → Result StoreError (List A)
insert_if fits clash row rows = if fits then insert clash row rows else err integrity_error

-- Two optional texts that are there and equal, as a partial unique index compares them
abbrev pub both_equal : Option String → Option String → Bool
both_equal none t = false
both_equal (some s) none = false
both_equal (some s) (some t) = s == t

abbrev pub event_clash : RawEvent → RawEvent → Bool
event_clash e f =
    e.id == f.id
    || (both_equal e.source_id f.source_id
        && both_equal e.provenance.external_event_id f.provenance.external_event_id)

abbrev pub decision_clash : DecisionEvent → DecisionEvent → Bool
decision_clash d e =
    d.id == e.id
    || (both_equal d.source_id e.source_id
        && both_equal d.external_decision_id e.external_decision_id)

abbrev pub option_clash : DecisionOption → DecisionOption → Bool
option_clash o p =
    o.id == p.id
    || (o.decision_id == p.decision_id && both_equal o.external_option_id p.external_option_id)

abbrev pub resolution_clash : DecisionResolution → DecisionResolution → Bool
resolution_clash r q = r.id == q.id || r.decision_id == q.decision_id

abbrev pub observation_clash : ResolutionObservation → ResolutionObservation → Bool
observation_clash o p = o.id == p.id

abbrev pub outcome_clash : OutcomeObservation → OutcomeObservation → Bool
outcome_clash o p = o.id == p.id

abbrev pub evidence_clash : Evidence → Evidence → Bool
evidence_clash e f = e.id == f.id

abbrev pub has_source : Option String → IngestionStore → Bool
has_source none s = true
has_source (some id) s = any (λ (x : Source). x.id == id) s.sources

abbrev pub has_decision : Option String → IngestionStore → Bool
has_decision none s = true
has_decision (some id) s = any (λ (x : DecisionEvent). x.id == id) s.decisions

abbrev pub has_event : String → IngestionStore → Bool
has_event id s = any (λ (x : RawEvent). x.id == id) s.events

abbrev has_option : Option String → IngestionStore → Bool
has_option none s = true
has_option (some id) s = any (λ (x : DecisionOption). x.id == id) s.options

-- The foreign keys of an observation of a choice, and of one of an outcome
abbrev pub resolution_refers : ResolutionObservation → IngestionStore → Bool
resolution_refers o s =
    has_source (some o.source_id) s
    && has_event o.source_event_id s
    && has_decision o.decision_id s
    && has_option o.chosen_option_id s

abbrev pub outcome_refers : OutcomeObservation → IngestionStore → Bool
outcome_refers o s =
    has_source (some o.source_id) s && has_event o.source_event_id s && has_decision o.decision_id s

unfoldable pub insert_event : RawEvent → IngestionStore → Write
insert_event e s =
    bind (reject_if (not (has_source e.source_id s)) integrity_error)
      λ _. bind (insert event_clash e s.events) λ rows. ok (record s { events = rows })

unfoldable pub insert_options : List DecisionOption → IngestionStore → Write
insert_options [] s = ok s
insert_options (o ∷ options) s =
    bind (insert_if (has_decision (some o.decision_id) s) option_clash o s.options)
      λ rows. insert_options options (record s { options = rows })

-- The WHERE test of `_attach_unmatched`
abbrev attachable :
    String
    → String
    → String
    → String
    → String
    → Option String
    → Option String
    → ObservationStatus
    → Bool
attachable profile_id source_id external_id profile source decision_id external status =
    profile == profile_id
    && source == source_id
    && eq_text external (some external_id)
    && is_none decision_id
    && is_unmatched status

abbrev resolution_attachable : String → String → String → ResolutionObservation → Bool
resolution_attachable profile_id source_id external_id o =
    attachable profile_id source_id external_id o.profile_id o.source_id o.decision_id
      o.external_decision_id o.status

abbrev outcome_attachable : String → String → String → OutcomeObservation → Bool
outcome_attachable profile_id source_id external_id o =
    attachable profile_id source_id external_id o.profile_id o.source_id o.decision_id
      o.external_decision_id o.status

abbrev attach_resolution : String → ResolutionObservation → ResolutionObservation
attach_resolution decision_id o = record o { decision_id = some decision_id; status = pending }

abbrev attach_outcome : String → OutcomeObservation → OutcomeObservation
attach_outcome decision_id o = record o { decision_id = some decision_id; status = pending }

-- `_attach_unmatched`
unfoldable pub attach_unmatched :
    String → String → String → String → IngestionStore → IngestionStore
attach_unmatched profile_id source_id external_id decision_id s = record s {
  resolution_observations =
      update_where (resolution_attachable profile_id source_id external_id)
        (attach_resolution decision_id) s.resolution_observations;
  outcome_observations =
      update_where (outcome_attachable profile_id source_id external_id)
        (attach_outcome decision_id) s.outcome_observations;
}

abbrev pub attach_if_external :
    DecisionEvent → Option String → Option String → IngestionStore → IngestionStore
attach_if_external d none source s = s
attach_if_external d (some external) none s = s
attach_if_external d (some external) (some source) s =
    attach_unmatched d.profile_id source external d.id s

unfoldable pub insert_decision :
    Option (DecisionEvent × List DecisionOption) → IngestionStore → Write
unfolding insert_options attach_unmatched
insert_decision none s = ok s
insert_decision (some (d, options)) s = bind (insert decision_clash d s.decisions) λ rows.
    bind (insert_options options (record s { decisions = rows }))
      λ s'. ok (attach_if_external d d.external_decision_id d.source_id s')

unfoldable pub insert_resolution_observation : Option ResolutionObservation → IngestionStore → Write
insert_resolution_observation none s = ok s
insert_resolution_observation (some o) s =
    bind (reject_if (not (resolution_refers o s)) integrity_error) λ _.
      bind (insert observation_clash o s.resolution_observations)
        λ rows. ok (record s { resolution_observations = rows })

unfoldable pub insert_outcome_observation : Option OutcomeObservation → IngestionStore → Write
insert_outcome_observation none s = ok s
insert_outcome_observation (some o) s =
    bind (reject_if (not (outcome_refers o s)) integrity_error) λ _.
      bind (insert outcome_clash o s.outcome_observations)
        λ rows. ok (record s { outcome_observations = rows })

unfoldable pub insert_evidence : List Evidence → IngestionStore → Write
insert_evidence [] s = ok s
insert_evidence (e ∷ items) s =
    bind (insert_if (has_event e.source_event_id s) evidence_clash e s.keys.evidence)
      λ rows. insert_evidence items (record s { keys = record s.keys { evidence = rows } })

abbrev pub bump_if_any : List Evidence → String → IngestionStore → IngestionStore
bump_if_any [] profile_id s = s
bump_if_any (e ∷ items) profile_id s = record s { keys = bump_evidence_revision profile_id s.keys }

abbrev pub option_belongs : Option DecisionOption → String → Bool
option_belongs none decision_id = false
option_belongs (some o) decision_id = o.decision_id == decision_id

abbrev pub decision_at : String → DecisionEvent → Bool
decision_at id d = d.id == id

abbrev pub close_decision : DecisionEvent → DecisionEvent
close_decision d = record d { status = resolved }
