-- ===== src/Ingestion/Service.antt =====
-- `DecisionIoService` of daemon/decision_io.py: `record_event` and what it is made of. The digest of
-- a report, the canonical text of a content and the ids are arguments.
use soulmate.Prelude.{
  ℕ, suc, String, Bool, true, false, not, ◌&&◌, ◌||◌, Option, none, some, is_none, is_some, List,
  [], ◌∷◌, ◌==◌, find, length, map, map_option, ltb, if◌then◌else◌,
}
use soulmate.Exec.{Result, ok, err, bind, reject_if}
use soulmate.Float.{one_float}
use soulmate.DecisionIo.Provenance.{ObservationStatus, unmatched, pending, confirmed, is_agent_push}
use soulmate.DecisionIo.Policy.{
  Timestamp, aware, naive, EventClassification, may_promote_resolution,
}
use soulmate.Domain.Sources.{Source, RawEvent}
use soulmate.Domain.Decisions.{
  DecisionEvent, decision_ok, DecisionOption, option_ok, DecisionResolution, still_open, is_open,
  external_service, observed,
}
use soulmate.Domain.Evidence.{Evidence, repeats_text}
use soulmate.Ingestion.Records.{eq_text}
use soulmate.Ingestion.Store.{IngestionStore}
use soulmate.Ingestion.Sources.{get_source}
use soulmate.Ingestion.Reports.{
  ReportedOption, DecisionProjection, ResolutionReport, Ids, ServiceError, source_not_found,
  source_not_ingestible, source_identity_mismatch, decision_options_invalid, decision_invalid,
}

abbrev pub Stored : Type 0
Stored = Option (DecisionEvent × List DecisionOption)

-- What a choice is promoted to, if anything
abbrev pub Promotion : Type 0
Promotion = Option (DecisionResolution × List Evidence)

abbrev pub map_err {ℓ} :
    {A : Type ℓ} {E : Type 0} → (E → ServiceError) → Result E A → Result ServiceError A
map_err f (ok a) = ok a
map_err f (err e) = err (f e)

-- A constructor that raises `ValueError` unless the test holds
abbrev pub construct {ℓ} : {A : Type ℓ} → ServiceError → (A → Bool) → A → Result ServiceError A
construct e test a = if test a then ok a else err e

abbrev ingestible : String → Option String → Option Source → Result ServiceError Source
ingestible profile_id identity none = err source_not_found
ingestible profile_id identity (some source) =
    bind (reject_if (not (source.profile_id == profile_id)) source_not_found) λ _.
      bind
        (reject_if (not (is_agent_push source.provenance.acquisition_method)) source_not_ingestible)
        λ _.
          bind
            (reject_if
              (is_none identity || not (eq_text source.provenance.service_identity_id identity))
              source_identity_mismatch)
            λ _. ok source

-- `ingestible_source`
unfoldable pub ingestible_source :
    String → String → Option String → IngestionStore → Result ServiceError Source
ingestible_source profile_id source_id identity s =
    ingestible profile_id identity (get_source source_id s)

abbrev pub instant : Timestamp → ℕ
instant (aware t) = t
instant (naive t) = t

abbrev external_ids : List ReportedOption → List String
external_ids options = map (λ (o : ReportedOption). o.external_option_id) options

abbrev option_named : String → DecisionOption → Bool
option_named external_id o = eq_text o.external_option_id (some external_id)

-- The stored option that a report chooses
abbrev pub chosen_in : ResolutionReport → Stored → Option String
chosen_in report none = none
chosen_in report (some d) =
    map_option (λ (o : DecisionOption). o.id) (find (option_named report.external_option_id) d.1)

abbrev pub already_resolved : Stored → Bool
already_resolved none = false
already_resolved (some d) = not (is_open d.0.status)

abbrev pub stored_id : Stored → Option String
stored_id none = none
stored_id (some d) = some d.0.id

abbrev pub confirms : EventClassification → Stored → Bool
confirms c stored = is_some stored && not (already_resolved stored) && may_promote_resolution c

abbrev pub matched_status : Bool → Stored → ObservationStatus
matched_status true stored = confirmed
matched_status false none = unmatched
matched_status false (some d) = pending

abbrev pub resolution_reason : Bool → Bool → String
resolution_reason true closed = "owner_choice_promoted"
resolution_reason false true = "decision_already_resolved"
resolution_reason false false = "awaiting_owner_confirmation"

abbrev pub only_if {ℓ} : {A : Type ℓ} → Bool → Option A → Option A
only_if true a = a
only_if false a = none

module _ (ids : Ids) where
  abbrev projected_option : ℕ → ReportedOption → DecisionOption
  projected_option index o = record {
    id = ids.option index;
    decision_id = ids.decision;
    label = o.label;
    description = o.description;
    features = o.features;
    feature_confidence = one_float;
    external_option_id = some o.external_option_id;
  }

  unfoldable projected_options : List ReportedOption → ℕ → Result ServiceError (List DecisionOption)
  projected_options [] index = ok []
  projected_options (o ∷ options) index =
      bind (construct decision_invalid option_ok (projected_option index o))
        λ row. bind (projected_options options (suc index)) λ rest. ok (row ∷ rest)

  abbrev projected_decision : String → Source → RawEvent → DecisionProjection → DecisionEvent
  projected_decision profile_id source event d = record {
    id = ids.decision;
    profile_id = profile_id;
    domain = d.domain;
    question = d.question;
    context = d.context;
    status = still_open;
    created_at = event.created_at;
    origin = external_service;
    purpose = observed;
    source_id = some source.id;
    external_decision_id = some d.external_decision_id;
    source_event_id = some event.id;
  }

  -- `_project`
  unfoldable pub project :
      String
      → Source
      → RawEvent
      → DecisionProjection
      → Result ServiceError (DecisionEvent × List DecisionOption)
  unfolding projected_options
  project profile_id source event d =
      bind (reject_if (ltb (length d.options) 2) decision_options_invalid) λ _.
        bind (reject_if (repeats_text (external_ids d.options)) decision_options_invalid) λ _.
          bind
            (construct decision_invalid decision_ok (projected_decision profile_id source event d))
            λ row. bind (projected_options d.options 0) λ options. ok (row, options)
