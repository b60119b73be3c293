-- ===== src/DecisionIo/Tests.antt =====
-- Reports, observations and policies at concrete values, and the theorems at them.
use soulmate.Prelude.{arith, String, ◌≡◌, ◌≢◌, ◌↔◌, ◌≤◌, refl, true, false, some, none, [], ◌∷◌}
use soulmate.Exec.{ok, err}
use soulmate.Text.{strip}
use soulmate.Float.{pos, one_float, in_unit, le_float}
use soulmate.DecisionIo.Provenance.{
  DataClass, SourceProvenance, provenance_ok, agent_push, owner_explicit, metadata, decision,
  outcome, mixed, full_content, structured_only, agent_only, DecisionIoEventType, EventActorType,
  event_provenance_ok, confirmed, unmatched, accepted, eligible, user_outcome, decision_resolution,
  owner_reported, user_behavior, is_owner, is_legacy_consent, data_class_in, allows_actor,
}
use soulmate.DecisionIo.Observations.{
  ResolutionObservation, resolution_ok, OutcomeObservation, outcome_ok,
}
use soulmate.DecisionIo.Policy.{
  Reported, aware, naive, classify_event, classified, derive_eligibility, retained_content,
  may_promote_resolution, outcome_kind_for, event_type_in, timestamp_naive,
  validate_retention_policy, event_data_class,
}
use soulmate.DecisionIo.Eligibility.{eligible_iff, Worthy, Narrower-rank, rank}
use soulmate.DecisionIo.Acceptance.{Acceptable, classification}
use soulmate.DecisionIo.Classification.{classify_event_iff, promotion_is_owned}

abbrev source : SourceProvenance
source = record {
  provider = some "mail";
  acquisition_method = agent_push;
  consent_mode = owner_explicit;
  consent_at = some 5;
  data_classes = decision ∷ outcome ∷ [];
  author_scope = mixed;
  raw_retention_policy = structured_only;
  adapter_version = none;
  parser_version = none;
  policy_profile_version = "p13.1";
  service_identity_id = some "service_1";
}

abbrev withdrawn : SourceProvenance
withdrawn = record source { data_classes = metadata ∷ [] }

-- The content of a report is its own canonical text here.
abbrev report : Reported String
report = record {
  provenance = source;
  event_type = decision_resolution;
  reported_actor = EventActorType.owner;
  schema_version = pos 1;
  content = "{}";
  occurred_at = aware 10;
  external_event_id = " event-1 ";
}

source_is_ok : provenance_ok source ≡ true
unfolding provenance_ok strip
source_is_ok = refl

envelope_is_ok :
    event_provenance_ok (record {
      schema_version = pos 1;
      external_event_id = some "event-1";
      actor_type = EventActorType.owner;
      evidence_eligibility = eligible;
      correlation_id = none;
      causation_event_id = some "event-0";
      content_fingerprint = none;
    })
    ≡ false
unfolding event_provenance_ok strip
envelope_is_ok = refl

unzoned : classify_event (λ s. s) (record report { occurred_at = naive 10 }) ≡ err timestamp_naive
unfolding classify_event
unzoned = refl

classifies : classify_event (λ s. s) report ≡ ok (classified (λ s. s) report)
unfolding classify_event strip allows_actor event_data_class
classifies = refl

classify_event_iff_example :
    (classify_event (λ s. s) report ≡ ok (classified (λ s. s) report))
    ↔ (Acceptable (λ s. s) report × (classified (λ s. s) report ≡ classification report))
classify_event_iff_example = classify_event_iff (λ s. s) report (classified (λ s. s) report)

promotes : may_promote_resolution (classified (λ s. s) report) ≡ true
unfolding may_promote_resolution derive_eligibility event_data_class
promotes = refl

promotion_is_owned_example :
    (is_owner EventActorType.owner ≡ true)
    × (mixed ≢ agent_only)
    × (is_legacy_consent owner_explicit ≡ false)
    × (event_type_in decision_resolution
          (decision_resolution ∷ DecisionIoEventType.user_override ∷ [])
        ≡ true)
promotion_is_owned_example =
    promotion_is_owned (λ s. s) report (classified (λ s. s) report) classifies promotes

eligible_iff_example :
    (derive_eligibility source decision_resolution EventActorType.owner ≡ eligible)
    ↔ Worthy source decision_resolution EventActorType.owner
eligible_iff_example = eligible_iff source decision_resolution EventActorType.owner

widened :
    (c : DataClass)
    → data_class_in c (metadata ∷ []) ≡ true
    → data_class_in c (metadata ∷ decision ∷ []) ≡ true
widened c h = ground arith

Narrower-rank_example :
    rank (derive_eligibility withdrawn decision_resolution EventActorType.owner)
    ≤ rank (
        derive_eligibility
          (record source { data_classes = metadata ∷ decision ∷ [] })
          decision_resolution
          EventActorType.owner)
Narrower-rank_example =
    Narrower-rank withdrawn (record source { data_classes = metadata ∷ decision ∷ [] })
      decision_resolution EventActorType.owner
      (record { consent = λ h. h; method = λ h. h; classes = λ c h. widened c h })

kind_known : outcome_kind_for user_outcome ≡ ok user_behavior
unfolding outcome_kind_for
kind_known = refl

outcome_eligible : derive_eligibility source user_outcome EventActorType.owner ≡ eligible
unfolding derive_eligibility event_data_class
outcome_eligible = refl

abbrev reported_outcome : OutcomeObservation
reported_outcome = record {
  id = "outcome_1";
  profile_id = "owner";
  source_id = "source_1";
  source_event_id = "event_1";
  kind = owner_reported;
  actor_type = EventActorType.owner;
  status = confirmed;
  created_at = 5;
  decision_id = some "decision_1";
  external_decision_id = none;
  technical_status = none;
  disposition = none;
  satisfaction = some one_float;
  regret = some false;
  confirmed_at = some 6;
  reason_code = none;
}

reported_outcome_ok : outcome_ok reported_outcome ≡ true
unfolding outcome_ok in_unit le_float one_float
reported_outcome_ok = refl

abbrev unmatched_resolution : ResolutionObservation
unmatched_resolution = record {
  id = "resolution_1";
  profile_id = "owner";
  source_id = "source_1";
  source_event_id = "event_1";
  actor_type = EventActorType.agent;
  status = unmatched;
  disposition = accepted;
  created_at = 5;
  decision_id = none;
  external_decision_id = some "ticket-7";
  chosen_option_id = none;
  external_option_id = some "b";
  correlation_confidence = some one_float;
  confirmed_at = none;
  reason_code = none;
}

unmatched_resolution_ok : resolution_ok unmatched_resolution ≡ true
unfolding resolution_ok in_unit le_float one_float
unmatched_resolution_ok = refl

abbrev nothing : String
nothing = ""

abbrev letter : String
letter = "text"

keeps_all : retained_content nothing full_content letter ≡ ok letter
unfolding retained_content validate_retention_policy
keeps_all = refl
