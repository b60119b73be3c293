-- ===== src/Ingestion/Tests.antt =====
-- Ingestion at a concrete source, and the theorems at it.
use soulmate.Prelude.{
  String, ◌≡◌, refl, true, false, none, some, [], ◌∷◌, find, filter, delete_where,
}
use soulmate.Exec.{ok, err}
use soulmate.Float.{pos}
use soulmate.Json.{no_fields}
use soulmate.DecisionIo.Provenance.{
  SourceProvenance, agent_push, owner_explicit, decision, mixed, full_content, agent,
  contextual_only,
}
use soulmate.Domain.Sources.{Source, RawEvent}
use soulmate.Ingestion.Records.{
  IngestionWrite, write_ok, IngestionResult, eq_text, DecisionIoSourceRemoval,
}
use soulmate.Ingestion.Store.{
  IngestionStore, external_event_conflict, insert_event, insert_decision,
  insert_resolution_observation, insert_outcome_observation,
}
use soulmate.Ingestion.Transaction.{ingest_new, ingest}
use soulmate.Ingestion.Sources.{
  get_source, without_decisions, without_events, remove_source, RemovalError, Removed,
}
use soulmate.Ingestion.Retry.{ingest-ingest}
use soulmate.Ingestion.Removal.{Gone, remove_source-Gone}

abbrev pushed : SourceProvenance
pushed = record {
  provider = some "tool";
  acquisition_method = agent_push;
  consent_mode = owner_explicit;
  consent_at = some 1;
  data_classes = decision ∷ [];
  author_scope = mixed;
  raw_retention_policy = full_content;
  adapter_version = none;
  parser_version = none;
  policy_profile_version = "p13.1";
  service_identity_id = some "identity";
}

abbrev tool : Source
tool = record {
  id = "tool";
  profile_id = "owner";
  source_type = "agent:tool";
  name = "Tool";
  created_at = 1;
  provenance = pushed;
}

abbrev event : String → String → RawEvent
event id fingerprint = record {
  id = id;
  profile_id = "owner";
  source_id = some "tool";
  event_type = "interaction";
  content = no_fields;
  created_at = 2;
  ingested_at = 3;
  sensitivity = "normal";
  provenance = record {
    schema_version = pos 1;
    external_event_id = some "x1";
    actor_type = agent;
    evidence_eligibility = contextual_only;
    correlation_id = none;
    causation_event_id = none;
    content_fingerprint = some fingerprint;
  };
}

abbrev write : String → String → IngestionWrite
write id fingerprint = record {
  event = event id fingerprint;
  decision = none;
  resolution_observation = none;
  outcome_observation = none;
  resolution = none;
  evidence = [];
}

abbrev before : IngestionStore
before = record {
  sources = tool ∷ [];
  events = [];
  decisions = [];
  options = [];
  resolutions = [];
  resolution_observations = [];
  outcome_observations = [];
  keys = record { evidence = []; revisions = []; aliases = []; catalog = []; embeddings = [] };
  audits = [];
}

abbrev after : IngestionStore
after = record before { events = event "e1" "f1" ∷ [] }

abbrev stored : IngestionResult
stored = record {
  event_id = "e1";
  duplicate = false;
  decision_id = none;
  resolution_observation_id = none;
  outcome_observation_id = none;
  observation_status = none;
}

ingests : ingest (write "e1" "f1") before ≡ (ok stored, after)
unfolding ingest ingest_new insert_event insert_decision insert_resolution_observation
    insert_outcome_observation find
ingests = refl

valid : write_ok (write "e1" "f1") ≡ true
unfolding write_ok
valid = refl

conflicts : ingest (write "e2" "f2") after ≡ (err external_event_conflict, after)
unfolding ingest find
conflicts = refl

abbrev again : IngestionWrite
again = write "e2" "f1"

abbrev first : IngestionWrite
first = write "e1" "f1"

ingest-ingest_example :
    (again.event.provenance.content_fingerprint ≡ first.event.provenance.content_fingerprint
      → (result : IngestionResult) × (ingest again after ≡ (ok result, after))
        × (result.event_id ≡ stored.event_id)
        × (result.duplicate ≡ true))
    × (eq_text first.event.provenance.content_fingerprint again.event.provenance.content_fingerprint
          ≡ false
        → ingest again after ≡ (err external_event_conflict, after))
ingest-ingest_example = ingest-ingest first again before after stored valid ingests refl refl

abbrev emptied : IngestionStore
emptied = record after { sources = []; events = [] }

abbrev counts : DecisionIoSourceRemoval
counts = record {
  source_id = "tool";
  raw_event_count = 1;
  decision_count = 0;
  observation_count = 0;
  evidence_count = 0;
}

abbrev removed : Removed
removed = ok (some counts)

removes : remove_source "owner" "tool" after ≡ (removed, emptied)
unfolding remove_source get_source without_decisions without_events find delete_where filter
removes = refl

remove_source-Gone_example :
    ((found : DecisionIoSourceRemoval)
      → removed ≡ ok (some found)
      → Gone "owner" "tool" after emptied)
    × ((removed ≡ ok none) → emptied ≡ after)
    × ((e : RemovalError) → removed ≡ err e → emptied ≡ after)
remove_source-Gone_example = remove_source-Gone "owner" "tool" after removed emptied removes
