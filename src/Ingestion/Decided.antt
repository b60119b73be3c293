-- ===== src/Ingestion/Decided.antt =====
-- The owner confirms a choice at concrete records, and the finality of the resolution at them.
use soulmate.Prelude.{
  ap, sort_by, ℕ, String, ◌≡◌, ◌≢◌, refl, true, none, some, List, [], ◌∷◌, find, filter,
  update_where,
}
use soulmate.Exec.{ok}
use soulmate.Learning.Choice.{resolution_evidence}
use soulmate.Text.Order.{lt_text}
use soulmate.Text.SortedSet.{insert_once}
use soulmate.Float.Arith.{max_float, min_float, decimal}
use soulmate.Float.{lt_float, minus_one_float, one_float}
use soulmate.Json.{no_fields}
use soulmate.Float.{pos}
use soulmate.DecisionIo.Provenance.{
  contextual_only, agent, ObservationStatus, pending, confirmed, accepted,
}
use soulmate.DecisionIo.Observations.{ResolutionObservation}
use soulmate.Domain.Sources.{RawEvent}
use soulmate.Domain.Decisions.{
  DecisionEvent, still_open, resolved, external_service, agent_consultation, DecisionOption,
  DecisionResolution,
}
use soulmate.Domain.Evidence.{Evidence}
use soulmate.Ingestion.Records.{IngestionWrite, IngestionResult}
use soulmate.Ingestion.Store.{IngestionStore, insert_evidence}
use soulmate.Ingestion.Transaction.{ingest, resolve_decision, apply_resolution}
use soulmate.Ingestion.Observations.{confirm_resolution_observation}
use soulmate.Ingestion.Reports.{Ids, PromotedResolution}
use soulmate.Ingestion.Confirming.{confirm_resolution}
use soulmate.Ingestion.Once.{Settled, confirm_once}
use soulmate.Ingestion.Growth.{resolutions_of}
use soulmate.Ingestion.Final.{Call, confirm_call, after_all, resolution_is_final}

abbrev asked : DecisionEvent
asked = record {
  id = "d1";
  profile_id = "owner";
  domain = "travel";
  question = "Train or plane?";
  context = no_fields;
  status = still_open;
  created_at = 2;
  origin = external_service;
  purpose = agent_consultation;
  source_id = some "tool";
  external_decision_id = some "x-d1";
  source_event_id = some "e1";
}

abbrev train : DecisionOption
train = record {
  id = "o1";
  decision_id = "d1";
  label = "Train";
  description = "Train";
  features = ("speed", one_float) ∷ [];
  feature_confidence = one_float;
  external_option_id = none;
}

abbrev plane : DecisionOption
plane = record train { id = "o2"; label = "Plane"; description = "Plane" }

abbrev observed : ResolutionObservation
observed = record {
  id = "r1";
  profile_id = "owner";
  source_id = "tool";
  source_event_id = "e2";
  actor_type = agent;
  status = pending;
  disposition = accepted;
  created_at = 3;
  decision_id = some "d1";
  external_decision_id = some "x-d1";
  chosen_option_id = some "o1";
  external_option_id = none;
  correlation_confidence = none;
  confirmed_at = none;
  reason_code = none;
}

abbrev choice : DecisionResolution
choice = record {
  id = "res1";
  decision_id = "d1";
  chosen_option_id = "o1";
  source_event_id = "e2";
  created_at = 4;
}

abbrev reported_choice : RawEvent
reported_choice = record {
  id = "e2";
  profile_id = "owner";
  source_id = some "tool";
  event_type = "decision_resolution";
  content = no_fields;
  created_at = 3;
  ingested_at = 3;
  sensitivity = "normal";
  provenance = record {
    schema_version = pos 1;
    external_event_id = some "x-e2";
    actor_type = agent;
    evidence_eligibility = contextual_only;
    correlation_id = none;
    causation_event_id = none;
    content_fingerprint = none;
  };
}

abbrev waiting : IngestionStore
waiting = record {
  sources = [];
  events = reported_choice ∷ [];
  decisions = asked ∷ [];
  options = train ∷ plane ∷ [];
  resolutions = [];
  resolution_observations = observed ∷ [];
  outcome_observations = [];
  keys = record { evidence = []; revisions = []; aliases = []; catalog = []; embeddings = [] };
  audits = [];
}

abbrev decided : IngestionStore
decided = record waiting {
  decisions = (record asked { status = resolved }) ∷ [];
  resolutions = choice ∷ [];
  resolution_observations =
      (record observed {
        status = confirmed;
        confirmed_at = some 4;
        reason_code = some "owner_confirmed";
      })
      ∷ [];
}

confirms : confirm_resolution_observation "r1" pending choice [] 4 waiting ≡ (ok true, decided)
unfolding confirm_resolution_observation apply_resolution resolve_decision insert_evidence find
    update_where
confirms = refl

-- Confirmed again, under another id of the resolution
abbrev again : List Call
again =
    confirm_call "r1" confirmed (record choice { id = "res2" }) [] 5
    ∷ confirm_call "r1" pending choice [] 6
    ∷ []

decided_has_one : resolutions_of "d1" decided ≢ []
unfolding filter
decided_has_one e = cc

resolution_is_final_example :
    (resolutions_of "d1" (after_all again decided) ≡ resolutions_of "d1" decided)
    × ((w : IngestionWrite) (result : IngestionResult)
        → w.resolution ≡ some choice
        → (ingest w (after_all again decided)).0 ≡ ok result
        → result.duplicate ≡ true)
    × ((id : String) (expected : ObservationStatus) (items : List Evidence) (at : ℕ)
        → (confirm_resolution_observation id expected choice items at (after_all again decided)).0
          ≢ ok true)
resolution_is_final_example = resolution_is_final again decided choice decided_has_one

abbrev ids : Ids
ids = record {
  event = "e9";
  decision = "d9";
  option = λ n. "o9";
  observation = "r9";
  outcome = "q9";
  resolution = "res1";
  audit = "a9";
}

abbrev taken_train : PromotedResolution
taken_train = record { decision_id = "d1"; chosen_option_id = "o1" }

-- Both options have the same features, so that nothing is learned.
owner_confirms : confirm_resolution ids "owner" "r1" 4 waiting ≡ (ok taken_train, decided)
unfolding confirm_resolution find resolution_evidence sort_by lt_text insert_once one_float lt_float
    max_float minus_one_float min_float decimal update_where
owner_confirms = refl

confirm_once_example :
    let later = after_all again (confirm_resolution ids "owner" "r1" 4 waiting).1 in
    Settled taken_train later
    × ((ids' : Ids) (profile' observation' : String) (now' : ℕ) (back : PromotedResolution)
        → back.decision_id ≡ "d1"
        → (confirm_resolution ids' profile' observation' now' later).0 ≢ ok back)
confirm_once_example =
    confirm_once again ids "owner" "r1" 4 waiting taken_train (ap (λ x. x.0) owner_confirms)
