-- ===== src/DecisionIo/Acceptance.antt =====
-- The demands of `classify_event` on a report, in plain terms, and that its tests are these demands.
use Prim.Native.String.{String}
use soulmate.Prelude.{
  ℕ, ◌≤◌, ◌≡◌, ◌≢◌, ◌↔◌, refl, sym, ap, subst, ◌∙◌, true, false, not, List, [], ◌∷◌, eqb_iff, arith,
  inl, inr, Bool-cases, Member, at_head, in_tail, false≢true,
}
use soulmate.Text.{is_empty, strip}
use soulmate.Float.{ℤ, pos, negsuc}
use soulmate.DecisionIo.Provenance.{
  SourceProvenance, AcquisitionMethod, agent_push, owner_input, owner_import, connector_pull,
  legacy_unverified, AuthorScope, owner_only, agent_only, mixed, EventActorType, is_owner,
  allows_actor, is_agent_push, DataClass, metadata, decision, correction, outcome, prompt, response,
  file_content, diff, data_class_index, eq_data_class, data_class_in,
}
use soulmate.DecisionIo.Policy.{
  Reported, EventClassification, Timestamp, aware, naive, is_naive, schema_supported, char_count,
  byte_count, external_id_bad, event_data_class, derive_eligibility,
}

-- The authors that a source in a scope reports of
abbrev Covers : AuthorScope → EventActorType → Type 0
Covers owner_only actor = actor ≡ EventActorType.owner
Covers agent_only actor = actor ≢ EventActorType.owner
Covers mixed actor = Unit

module _ {Content : Type 0} (canonical_content : Content → String) (r : Reported Content) where
  pub record Acceptable : Type 0 where
    pub version_one : r.schema_version ≡ pos 1
    pub zoned : (t : ℕ) × (r.occurred_at ≡ aware t)
    pub named : 1 ≤ char_count (strip r.external_event_id)
    pub short : char_count (strip r.external_event_id) ≤ 200
    pub small : byte_count (canonical_content r.content) ≤ 65536
    pub pushed : r.provenance.acquisition_method ≡ agent_push
    pub in_scope : Covers r.provenance.author_scope r.reported_actor
    pub declared : Member (event_data_class r.event_type) r.provenance.data_classes

-- What an accepted report is classified as
abbrev pub classification : {Content : Type 0} → Reported Content → EventClassification
classification r = record {
  event_type = r.event_type;
  actor_type = r.reported_actor;
  eligibility = derive_eligibility r.provenance r.event_type r.reported_actor;
  data_class = event_data_class r.event_type;
  profile_version = "p13.1";
}

pub schema_iff : (z : ℤ) → (schema_supported z ≡ true) ↔ (z ≡ pos 1)
schema_iff z = (forward z, λ e. ap schema_supported e)
  where
    forward : (z : ℤ) → schema_supported z ≡ true → z ≡ pos 1
    forward (pos n) h = ap pos ((eqb_iff n 1).0 h)
    forward (negsuc n) h = absurd (false≢true h)

pub zoned_iff : (t : Timestamp) → (is_naive t ≡ false) ↔ ((n : ℕ) × (t ≡ aware n))
zoned_iff t = (forward t, λ (n, e). ap is_naive e)
  where
    forward : (t : Timestamp) → is_naive t ≡ false → (n : ℕ) × (t ≡ aware n)
    forward (aware n) h = (n, refl)
    forward (naive n) h = absurd (false≢true (sym h))

empty_iff : (s : String) → (is_empty s ≡ false) ↔ (1 ≤ char_count s)
empty_iff String.[] = (λ h. absurd (false≢true (sym h)), λ h. absurd (omega arith))
empty_iff (String.◌∷◌ c s) = (λ h. omega arith, λ h. refl)

pub external_id_iff :
    (s : String) → (external_id_bad s ≡ false) ↔ ((1 ≤ char_count s) × (char_count s ≤ 200))
external_id_iff s = (
  (λ h. ((empty_iff s).0 (ground arith), ground arith)),
  λ (filled, short). rw ((empty_iff s).1 filled) (ground arith),
)

pub pushed_iff : (a : AcquisitionMethod) → (is_agent_push a ≡ true) ↔ (a ≡ agent_push)
pushed_iff a = (forward a, λ e. ap is_agent_push e)
  where
    forward : (a : AcquisitionMethod) → is_agent_push a ≡ true → a ≡ agent_push
    forward agent_push h = refl
    forward owner_input h = absurd (false≢true h)
    forward owner_import h = absurd (false≢true h)
    forward connector_pull h = absurd (false≢true h)
    forward legacy_unverified h = absurd (false≢true h)

owner_iff : (a : EventActorType) → (is_owner a ≡ true) ↔ (a ≡ EventActorType.owner)
owner_iff a = (forward a, λ e. ap is_owner e)
  where
    forward : (a : EventActorType) → is_owner a ≡ true → a ≡ EventActorType.owner
    forward EventActorType.owner h = refl
    forward b h = absurd (cc h)

pub scope_iff :
    (p : SourceProvenance) (a : EventActorType)
    → (allows_actor p a ≡ true) ↔ Covers p.author_scope a
unfolding allows_actor
scope_iff p a = by_scope p.author_scope
  where
    by_scope :
        (scope : AuthorScope)
        → (elim scope [ mixed ↦ true | owner_only ↦ is_owner a | agent_only ↦ not (is_owner a) ]
            ≡ true)
          ↔ Covers scope a
    by_scope mixed = (λ h. tt, λ h. refl)
    by_scope owner_only = owner_iff a
    by_scope agent_only = (
      (λ h e. false≢true (ap (λ x. not (is_owner x)) (sym e) ∙ h)),
      λ other. elim (Bool-cases (is_owner a)) [
        | inl own ↦ absurd (other ((owner_iff a).0 own))
        | inr off ↦ rw off refl
      ],
    )

data_class_path : (c d : DataClass) → eq_data_class c d ≡ true → c ≡ d
data_class_path metadata metadata h = refl
data_class_path decision decision h = refl
data_class_path correction correction h = refl
data_class_path outcome outcome h = refl
data_class_path prompt prompt h = refl
data_class_path response response h = refl
data_class_path file_content file_content h = refl
data_class_path diff diff h = refl
data_class_path c d h = absurd (cc h)

pub declared_iff : (c : DataClass) (cs : List DataClass) → (data_class_in c cs ≡ true) ↔ Member c cs
declared_iff c [] = (λ h. absurd (false≢true h), λ m. elim m [ ])
declared_iff c (d ∷ cs) = (
  (λ h. elim (Bool-cases (eq_data_class d c)) [
    | inl same ↦ at_head (sym (data_class_path d c same))
    | inr other ↦ in_tail ((declared_iff c cs).0 (rw other at h))
  ]),
  λ m. elim m [
    | at_head e ↦
        rw
          (subst (λ x. eq_data_class d x ≡ true) (sym e)
            ((eqb_iff (data_class_index d) (data_class_index d)).1 refl))
          refl
    | in_tail later ↦ rw ((declared_iff c cs).1 later) (ground arith)
  ],
)
