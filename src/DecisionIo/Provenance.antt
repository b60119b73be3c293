-- ===== src/DecisionIo/Provenance.antt =====
-- The vocabulary of core/domain/provenance.py and the provenance of sources and events.
use soulmate.Prelude.{
  ℕ, String, Bool, true, false, not, ◌&&◌, ◌||◌, Option, none, some, is_none, is_some, List, [],
  ◌∷◌, any, eqb,
}
use soulmate.Float.{ℤ, pos, negsuc}
use soulmate.Text.{is_blank}

pub data AcquisitionMethod : Type 0 where
  owner_input owner_import connector_pull agent_push legacy_unverified : AcquisitionMethod

pub data ConsentMode : Type 0 where
  owner_explicit owner_implicit legacy_unverified : ConsentMode

pub data DataClass : Type 0 where
  metadata decision correction outcome prompt response file_content diff : DataClass

pub data AuthorScope : Type 0 where
  owner_only agent_only mixed : AuthorScope

pub data RawRetentionPolicy : Type 0 where
  metadata_only structured_only full_content delete_after_extraction : RawRetentionPolicy

pub data EventActorType : Type 0 where
  owner agent assistant system third_party unknown : EventActorType

pub data EvidenceEligibility : Type 0 where
  eligible contextual_only ignored : EvidenceEligibility

pub data DecisionIoEventType : Type 0 where
  interaction decision_candidate decision_resolution agent_proposal : DecisionIoEventType
  user_override action technical_outcome user_outcome correction context : DecisionIoEventType

pub data ObservationStatus : Type 0 where
  unmatched pending confirmed rejected : ObservationStatus

pub data OutcomeKind : Type 0 where
  technical user_behavior owner_reported : OutcomeKind

pub data TechnicalOutcomeStatus : Type 0 where
  succeeded failed partial unknown : TechnicalOutcomeStatus

pub data UserDisposition : Type 0 where
  accepted modified replaced reverted unknown : UserDisposition

-- `is` tests on the members of an enumeration, by their positions.
abbrev pub data_class_index : DataClass → ℕ
data_class_index metadata = 0
data_class_index decision = 1
data_class_index correction = 2
data_class_index outcome = 3
data_class_index prompt = 4
data_class_index response = 5
data_class_index file_content = 6
data_class_index diff = 7

abbrev pub eq_data_class : DataClass → DataClass → Bool
eq_data_class a b = eqb (data_class_index a) (data_class_index b)

abbrev event_type_index : DecisionIoEventType → ℕ
event_type_index interaction = 0
event_type_index decision_candidate = 1
event_type_index decision_resolution = 2
event_type_index agent_proposal = 3
event_type_index user_override = 4
event_type_index action = 5
event_type_index technical_outcome = 6
event_type_index user_outcome = 7
event_type_index correction = 8
event_type_index context = 9

abbrev pub eq_event_type : DecisionIoEventType → DecisionIoEventType → Bool
eq_event_type a b = eqb (event_type_index a) (event_type_index b)

abbrev pub is_owner : EventActorType → Bool
is_owner owner = true
is_owner a = false

abbrev pub is_agent_push : AcquisitionMethod → Bool
is_agent_push agent_push = true
is_agent_push a = false

abbrev pub is_legacy_method : AcquisitionMethod → Bool
is_legacy_method legacy_unverified = true
is_legacy_method a = false

abbrev is_explicit : ConsentMode → Bool
is_explicit owner_explicit = true
is_explicit c = false

abbrev pub is_legacy_consent : ConsentMode → Bool
is_legacy_consent legacy_unverified = true
is_legacy_consent c = false

abbrev pub is_eligible : EvidenceEligibility → Bool
is_eligible eligible = true
is_eligible e = false

abbrev pub data_class_in : DataClass → List DataClass → Bool
data_class_in c cs = any (λ d. eq_data_class d c) cs

-- `len(set(cs)) != len(cs)`
abbrev repeats : List DataClass → Bool
repeats [] = false
repeats (c ∷ cs) = data_class_in c cs || repeats cs

abbrev pub is_nil {ℓ} : {A : Type ℓ} → List A → Bool
is_nil [] = true
is_nil (x ∷ xs) = false

-- Instants are microseconds.
pub record SourceProvenance : Type 0 where
  pub provider : Option String
  pub acquisition_method : AcquisitionMethod
  pub consent_mode : ConsentMode
  pub consent_at : Option ℕ
  pub data_classes : List DataClass
  pub author_scope : AuthorScope
  pub raw_retention_policy : RawRetentionPolicy
  pub adapter_version : Option String
  pub parser_version : Option String
  pub policy_profile_version : String
  pub service_identity_id : Option String

-- `SourceProvenance.__post_init__` raises unless this holds.
unfoldable pub provenance_ok : SourceProvenance → Bool
provenance_ok p =
    not (is_nil p.data_classes)
    && not (repeats p.data_classes)
    && not (is_blank p.policy_profile_version)
    && not (is_explicit p.consent_mode && is_none p.consent_at)
    && not (is_agent_push p.acquisition_method && is_none p.service_identity_id)

-- `SourceProvenance.allows_actor`
unfoldable pub allows_actor : SourceProvenance → EventActorType → Bool
allows_actor p actor_type = elim p.author_scope [
  | mixed ↦ true
  | owner_only ↦ is_owner actor_type
  | agent_only ↦ not (is_owner actor_type)
]

pub record EventProvenance : Type 0 where
  pub schema_version : ℤ
  pub external_event_id : Option String
  pub actor_type : EventActorType
  pub evidence_eligibility : EvidenceEligibility
  pub correlation_id : Option String
  pub causation_event_id : Option String
  pub content_fingerprint : Option String

-- `x < 1`
abbrev below_one : ℤ → Bool
below_one (pos n) = eqb n 0
below_one (negsuc n) = true

-- `x is not None and not x.strip()`
abbrev pub blank_text : Option String → Bool
blank_text none = false
blank_text (some s) = is_blank s

-- `EventProvenance.__post_init__` raises unless this holds.
unfoldable pub event_provenance_ok : EventProvenance → Bool
event_provenance_ok e =
    not (below_one e.schema_version)
    && not (blank_text e.external_event_id)
    && not (is_some e.causation_event_id && is_none e.correlation_id)
