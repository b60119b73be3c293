-- ===== src/DecisionIo/Policy.antt =====
-- The classification of reported events. Their content is a parameter of the model, given with its
-- canonical JSON text.
use Prim.Native.Char.{code}
use soulmate.Prelude.{
  ℕ, suc, ◌+◌, ◌*◌, String, Bool, true, false, not, ◌&&◌, ◌||◌, List, [], ◌∷◌, any, ltb, eqb,
  if◌then◌else◌,
}
use soulmate.Exec.{Result, ok, err, bind, reject_if}
use soulmate.Text.{strip, is_empty}
use soulmate.Float.{ℤ, pos, negsuc}
use soulmate.DecisionIo.Provenance.{
  DecisionIoEventType, interaction, decision_candidate, decision_resolution, agent_proposal,
  user_override, action, technical_outcome, user_outcome, context, eq_event_type, DataClass,
  metadata, decision, outcome, data_class_in, EventActorType, is_owner, EvidenceEligibility,
  eligible, contextual_only, ignored, is_eligible, OutcomeKind, technical, user_behavior,
  RawRetentionPolicy, metadata_only, delete_after_extraction, structured_only, full_content,
  SourceProvenance, allows_actor, is_legacy_consent, is_legacy_method, is_agent_push,
}

-- The reason codes of `DecisionIoError`.
pub data ReasonCode : Type 0 where
  retention_unsupported schema_unsupported timestamp_naive external_id_invalid : ReasonCode
  content_too_large source_not_ingestible actor_outside_source_scope : ReasonCode
  data_class_not_declared event_type_not_outcome : ReasonCode

abbrev pub policy_profile_version : String
policy_profile_version = "p13.1"

-- `schema_version in SUPPORTED_SCHEMA_VERSIONS`
abbrev pub schema_supported : ℤ → Bool
schema_supported (pos n) = eqb n 1
schema_supported (negsuc n) = false

abbrev pub max_event_content_bytes : ℕ
max_event_content_bytes = 64 * 1024

abbrev max_external_id_length : ℕ
max_external_id_length = 200

unfoldable pub event_data_class : DecisionIoEventType → DataClass
event_data_class interaction = metadata
event_data_class decision_candidate = decision
event_data_class decision_resolution = decision
event_data_class agent_proposal = decision
event_data_class user_override = DataClass.correction
event_data_class action = metadata
event_data_class technical_outcome = outcome
event_data_class user_outcome = outcome
event_data_class DecisionIoEventType.correction = DataClass.correction
event_data_class context = metadata

abbrev pub owner_authored_event_types : List DecisionIoEventType
owner_authored_event_types =
    decision_resolution ∷ user_override ∷ DecisionIoEventType.correction ∷ user_outcome ∷ []

abbrev pub ignored_event_types : List DecisionIoEventType
ignored_event_types = technical_outcome ∷ []

abbrev pub event_type_in : DecisionIoEventType → List DecisionIoEventType → Bool
event_type_in t ts = any (λ u. eq_event_type u t) ts

pub record EventClassification : Type 0 where
  pub event_type : DecisionIoEventType
  pub actor_type : EventActorType
  pub eligibility : EvidenceEligibility
  pub data_class : DataClass
  pub profile_version : String

-- `len(s)` and `len(s.encode("utf-8"))`
abbrev pub char_count : String → ℕ
char_count String.[] = 0
char_count (String.◌∷◌ c s) = suc (char_count s)

abbrev utf8_width : ℕ → ℕ
utf8_width c = if ltb c 0x80 then 1 else if ltb c 0x800 then 2 else if ltb c 0x10000 then 3 else 4

abbrev pub byte_count : String → ℕ
byte_count String.[] = 0
byte_count (String.◌∷◌ c s) = utf8_width (code c) + byte_count s

-- A `datetime`, with a time zone or without.
pub data Timestamp : Type 0 where
  aware naive : ℕ → Timestamp

abbrev pub is_naive : Timestamp → Bool
is_naive (aware t) = false
is_naive (naive t) = true

unfoldable pub validate_retention_policy : RawRetentionPolicy → Result ReasonCode RawRetentionPolicy
validate_retention_policy delete_after_extraction = err retention_unsupported
validate_retention_policy metadata_only = ok metadata_only
validate_retention_policy structured_only = ok structured_only
validate_retention_policy full_content = ok full_content

unfoldable pub derive_eligibility :
    SourceProvenance → DecisionIoEventType → EventActorType → EvidenceEligibility
derive_eligibility p event_type actor_type =
    if event_type_in event_type ignored_event_types
    then ignored
    else if not (is_owner actor_type)
    then contextual_only
    else if is_legacy_consent p.consent_mode
    then contextual_only
    else if is_legacy_method p.acquisition_method
    then contextual_only
    else if not (data_class_in (event_data_class event_type) p.data_classes)
    then contextual_only
    else if not (event_type_in event_type owner_authored_event_types)
    then contextual_only
    else eligible

unfoldable pub may_promote_resolution : EventClassification → Bool
may_promote_resolution c =
    event_type_in c.event_type (decision_resolution ∷ user_override ∷ [])
    && is_owner c.actor_type
    && is_eligible c.eligibility

unfoldable pub outcome_kind_for : DecisionIoEventType → Result ReasonCode OutcomeKind
outcome_kind_for technical_outcome = ok technical
outcome_kind_for user_outcome = ok user_behavior
outcome_kind_for t = err event_type_not_outcome

abbrev is_metadata_only : RawRetentionPolicy → Bool
is_metadata_only metadata_only = true
is_metadata_only p = false

module _ {Content : Type 0} (empty : Content) where
  unfoldable pub retained_content : RawRetentionPolicy → Content → Result ReasonCode Content
  retained_content policy content =
      bind (validate_retention_policy policy)
        λ _. ok (if is_metadata_only policy then empty else content)

-- The arguments of `classify_event`.
pub record Reported (Content : Type 0) : Type 0 where
  pub provenance : SourceProvenance
  pub event_type : DecisionIoEventType
  pub reported_actor : EventActorType
  pub schema_version : ℤ
  pub content : Content
  pub occurred_at : Timestamp
  pub external_event_id : String

abbrev pub external_id_bad : String → Bool
external_id_bad s = is_empty s || ltb max_external_id_length (char_count s)

module _ {Content : Type 0} (canonical_content : Content → String) where
  -- What `classify_event` returns for a report that it does not reject.
  abbrev pub classified : Reported Content → EventClassification
  classified r = record {
    event_type = r.event_type;
    actor_type = r.reported_actor;
    eligibility = derive_eligibility r.provenance r.event_type r.reported_actor;
    data_class = event_data_class r.event_type;
    profile_version = policy_profile_version;
  }

  unfoldable pub classify_event : Reported Content → Result ReasonCode EventClassification
  classify_event r =
      bind (reject_if (not (schema_supported r.schema_version)) schema_unsupported) λ _.
        bind (reject_if (is_naive r.occurred_at) timestamp_naive) λ _.
          bind (reject_if (external_id_bad (strip r.external_event_id)) external_id_invalid) λ _.
            bind
              (reject_if (ltb max_event_content_bytes (byte_count (canonical_content r.content)))
                content_too_large)
              λ _.
                bind
                  (reject_if (not (is_agent_push r.provenance.acquisition_method))
                    source_not_ingestible)
                  λ _.
                    bind
                      (reject_if (not (allows_actor r.provenance r.reported_actor))
                        actor_outside_source_scope)
                      λ _.
                        bind
                          (reject_if
                            (not (
                              data_class_in (event_data_class r.event_type)
                                r.provenance.data_classes))
                            data_class_not_declared)
                          λ _. ok (classified r)
