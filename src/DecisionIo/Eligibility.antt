-- ===== src/DecisionIo/Eligibility.antt =====
-- When an event may serve as evidence, and that less consent never makes it serve more.
use soulmate.Prelude.{
  ℕ, ◌≤◌, ◌≡◌, ◌≢◌, ◌↔◌, refl, sym, ap, ◌∙◌, true, false, inl, inr, Bool-cases, arith, false≢true,
}
use soulmate.DecisionIo.Provenance.{
  SourceProvenance, data_class_in, DataClass, DecisionIoEventType, EventActorType, is_owner,
  is_eligible, is_legacy_consent, is_legacy_method, EvidenceEligibility, eligible, contextual_only,
  ignored,
}
use soulmate.DecisionIo.Policy.{
  event_data_class, derive_eligibility, event_type_in, ignored_event_types,
  owner_authored_event_types,
}

-- What makes an event evidence.
pub record Worthy (p : SourceProvenance) (t : DecisionIoEventType) (a : EventActorType)
    : Type 0 where
  pub own : is_owner a ≡ true
  pub consented : is_legacy_consent p.consent_mode ≡ false
  pub acquired : is_legacy_method p.acquisition_method ≡ false
  pub declared : data_class_in (event_data_class t) p.data_classes ≡ true
  pub authored : event_type_in t owner_authored_event_types ≡ true

eligible_of : (e : EvidenceEligibility) → is_eligible e ≡ true → e ≡ eligible
eligible_of eligible h = refl
eligible_of contextual_only h = absurd (cc h)
eligible_of ignored h = absurd (cc h)

module _ (p : SourceProvenance) (t : DecisionIoEventType) (a : EventActorType) where
  authored_not_ignored :
      event_type_in t owner_authored_event_types ≡ true
      → event_type_in t ignored_event_types ≡ false
  authored_not_ignored h = ground arith

  eligible-Worthy : is_eligible (derive_eligibility p t a) ≡ true → Worthy p t a
  unfolding derive_eligibility
  eligible-Worthy h = record {
    own = ground arith;
    consented = ground arith;
    acquired = ground arith;
    declared = ground arith;
    authored = ground arith;
  }

  Worthy-eligible : Worthy p t a → is_eligible (derive_eligibility p t a) ≡ true
  unfolding derive_eligibility
  Worthy-eligible w =
      rw (authored_not_ignored w.authored, w.own, w.consented, w.acquired, w.declared, w.authored)

  -- An event is eligible exactly if the owner is its author, the consent and the method of its
  -- source are not the unverified legacy ones, its source declares the data class of the event, and
  -- its kind is one that an owner authors.
  pub eligible_iff : (derive_eligibility p t a ≡ eligible) ↔ Worthy p t a
  eligible_iff = (
    λ h. eligible-Worthy (ap is_eligible h),
    λ w. eligible_of (derive_eligibility p t a) (Worthy-eligible w),
  )

-- The places of an eligibility: ignored, contextual, eligible.
abbrev pub rank : EvidenceEligibility → ℕ
rank ignored = 0
rank contextual_only = 1
rank eligible = 2

-- A source that has, at most, the consent, the method and the data classes of another.
pub record Narrower (p q : SourceProvenance) : Type 0 where
  pub consent : is_legacy_consent p.consent_mode ≡ false → is_legacy_consent q.consent_mode ≡ false
  pub method :
      is_legacy_method p.acquisition_method ≡ false → is_legacy_method q.acquisition_method ≡ false
  pub classes :
      (c : DataClass)
      → data_class_in c p.data_classes ≡ true
      → data_class_in c q.data_classes ≡ true

rank_top : (e : EvidenceEligibility) → rank e ≤ 2
rank_top eligible = ground arith
rank_top contextual_only = ground arith
rank_top ignored = ground arith

-- An ignored event is ignored whatever its source is.
rank_of_ignored :
    (p : SourceProvenance) (t : DecisionIoEventType) (a : EventActorType)
    → event_type_in t ignored_event_types ≡ true
    → derive_eligibility p t a ≡ ignored
unfolding derive_eligibility
rank_of_ignored p t a h = rw h

rank_contextual :
    (p : SourceProvenance) (t : DecisionIoEventType) (a : EventActorType)
    → event_type_in t ignored_event_types ≡ false
    → derive_eligibility p t a ≢ eligible
    → derive_eligibility p t a ≡ contextual_only
unfolding derive_eligibility
rank_contextual p t a off h = ground arith

rank_low :
    (q : SourceProvenance) (t : DecisionIoEventType) (a : EventActorType)
    → event_type_in t ignored_event_types ≡ false
    → 1 ≤ rank (derive_eligibility q t a)
unfolding derive_eligibility
rank_low q t a off = ground arith

-- Withdrawing consent, the verified method or data classes from a source never raises the
-- eligibility of an event.
pub Narrower-rank :
    (p q : SourceProvenance) (t : DecisionIoEventType) (a : EventActorType)
    → Narrower p q
    → rank (derive_eligibility p t a) ≤ rank (derive_eligibility q t a)
Narrower-rank p q t a n = elim (Bool-cases (event_type_in t ignored_event_types)) [
  | inl on ↦ rw (rank_of_ignored p t a on, rank_of_ignored q t a on) (ground arith)
  | inr off ↦ elim (Bool-cases (is_eligible (derive_eligibility p t a))) [
    | inl high ↦
        let w = eligible-Worthy p t a high in
        rw
          ((eligible_iff q t a).1 (record {
            own = w.own;
            consented = n.consent w.consented;
            acquired = n.method w.acquired;
            declared = n.classes (event_data_class t) w.declared;
            authored = w.authored;
          }))
          (rank_top (derive_eligibility p t a))
    | inr low ↦
        rw (rank_contextual p t a off (λ e. false≢true (sym low ∙ ap is_eligible e)))
          (rank_low q t a off)
  ]
]
