-- ===== src/DecisionIo/Classification.antt =====
-- Which reports `classify_event` accepts, and what an accepted report can lead to.
use soulmate.Prelude.{
  ℕ, ◌≤◌, String, ◌≡◌, ◌≢◌, ◌↔◌, sym, ap, subst, ◌∙◌, Bool, true, false, not, ◌&&◌, inl, inr,
  Bool-cases, arith, ltb, [], ◌∷◌,
}
use soulmate.Exec.{ok, ok_inj, passed}
use soulmate.Text.{strip}
use soulmate.DecisionIo.Provenance.{
  allows_actor, is_agent_push, data_class_in, DecisionIoEventType, is_owner, is_eligible,
  agent_only, is_legacy_consent,
}
use soulmate.DecisionIo.Policy.{
  Reported, EventClassification, classify_event, classified, schema_supported, is_naive,
  external_id_bad, byte_count, max_event_content_bytes, event_data_class, may_promote_resolution,
  derive_eligibility, event_type_in,
}
use soulmate.DecisionIo.Acceptance.{
  Acceptable, classification, schema_iff, zoned_iff, external_id_iff, pushed_iff, scope_iff,
  declared_iff,
}

small_iff : (n : ℕ) → (ltb max_event_content_bytes n ≡ false) ↔ (n ≤ 65536)
small_iff n = ground arith

module _ {Content : Type 0} (canonical_content : Content → String) (r : Reported Content) where
  -- The demands on a report.
  record Accepted : Type 0 where
    pub schema : schema_supported r.schema_version ≡ true
    pub zoned : is_naive r.occurred_at ≡ false
    pub identified : external_id_bad (strip r.external_event_id) ≡ false
    pub small : ltb max_event_content_bytes (byte_count (canonical_content r.content)) ≡ false
    pub pushed : is_agent_push r.provenance.acquisition_method ≡ true
    pub in_scope : allows_actor r.provenance r.reported_actor ≡ true
    pub declared : data_class_in (event_data_class r.event_type) r.provenance.data_classes ≡ true

  not-false : {b : Bool} → not b ≡ false → b ≡ true
  not-false {b} h = ground arith

  both : (a b : Bool) → (a && b) ≡ true → (a ≡ true) × (b ≡ true)
  both a b h = ground arith

  covers_owner :
      is_owner r.reported_actor ≡ true
      → allows_actor r.provenance r.reported_actor ≡ true
      → r.provenance.author_scope ≢ agent_only
  unfolding allows_actor
  covers_owner own ok_actor scoped = cc (rw (scoped, own) at ok_actor)

  eligible_consent :
      is_eligible (derive_eligibility r.provenance r.event_type r.reported_actor) ≡ true
      → is_legacy_consent r.provenance.consent_mode ≡ false
  unfolding derive_eligibility
  eligible_consent h = elim (Bool-cases (is_legacy_consent r.provenance.consent_mode)) [
    | inr off ↦ off
    | inl on ↦ ground arith
  ]

  promoted :
      Accepted
      → may_promote_resolution (classified canonical_content r) ≡ true
      → (is_owner r.reported_actor ≡ true)
        × (r.provenance.author_scope ≢ agent_only)
        × (is_legacy_consent r.provenance.consent_mode ≡ false)
        × (event_type_in r.event_type
              (DecisionIoEventType.decision_resolution ∷ DecisionIoEventType.user_override ∷ [])
            ≡ true)
  unfolding may_promote_resolution
  promoted a p =
      let (kind_own, worthy) =
        both _ (is_eligible (derive_eligibility r.provenance r.event_type r.reported_actor)) p in
      let (kind, own) = both _ (is_owner r.reported_actor) kind_own in
      (own, covers_owner own a.in_scope, eligible_consent worthy, kind)

  accepted_passes :
      Accepted → classify_event canonical_content r ≡ ok (classified canonical_content r)
  unfolding classify_event
  accepted_passes a =
      rw (a.schema, a.zoned, a.identified, a.small, a.pushed, a.in_scope, a.declared)

  passes-Accepted :
      (c : EventClassification)
      → classify_event canonical_content r ≡ ok c
      → Accepted × (c ≡ classified canonical_content r)
  unfolding classify_event
  passes-Accepted c h =
      let (schema, h1) = passed _ _ _ h in
      let (zoned, h2) = passed _ _ _ h1 in
      let (identified, h3) = passed _ _ _ h2 in
      let (small, h4) = passed _ _ _ h3 in
      let (pushed, h5) = passed _ _ _ h4 in
      let (in_scope, h6) = passed _ _ _ h5 in
      let (declared, h7) = passed _ _ _ h6 in
      (
        record {
          schema = not-false schema;
          zoned = zoned;
          identified = identified;
          small = small;
          pushed = not-false pushed;
          in_scope = not-false in_scope;
          declared = not-false declared;
        },
        sym (ok_inj h7),
      )

  Accepted-Acceptable : Accepted → Acceptable canonical_content r
  Accepted-Acceptable a =
      let (named, short) = (external_id_iff (strip r.external_event_id)).0 a.identified in
      record {
        version_one = (schema_iff r.schema_version).0 a.schema;
        zoned = (zoned_iff r.occurred_at).0 a.zoned;
        named = named;
        short = short;
        small = (small_iff (byte_count (canonical_content r.content))).0 a.small;
        pushed = (pushed_iff r.provenance.acquisition_method).0 a.pushed;
        in_scope = (scope_iff r.provenance r.reported_actor).0 a.in_scope;
        declared =
            (declared_iff (event_data_class r.event_type) r.provenance.data_classes).0 a.declared;
      }

  Acceptable-Accepted : Acceptable canonical_content r → Accepted
  Acceptable-Accepted a = record {
    schema = (schema_iff r.schema_version).1 a.version_one;
    zoned = (zoned_iff r.occurred_at).1 a.zoned;
    identified = (external_id_iff (strip r.external_event_id)).1 (a.named, a.short);
    small = (small_iff (byte_count (canonical_content r.content))).1 a.small;
    pushed = (pushed_iff r.provenance.acquisition_method).1 a.pushed;
    in_scope = (scope_iff r.provenance r.reported_actor).1 a.in_scope;
    declared =
        (declared_iff (event_data_class r.event_type) r.provenance.data_classes).1 a.declared;
  }

  -- A report is classified exactly if its schema version is 1, its time has a zone, its stripped
  -- external id has 1 to 200 characters, the canonical text of its content has at most 65,536 bytes
  -- in UTF-8, and its source pushes events, covers the author and declares the data class of the
  -- event. The classification then has the type and the author of the report, the derived
  -- eligibility, the data class and the policy version p13.1.
  pub classify_event_iff :
      (c : EventClassification)
      → (classify_event canonical_content r ≡ ok c)
        ↔ (Acceptable canonical_content r × (c ≡ classification r))
  classify_event_iff c = (
    (λ h. let (a, same) = passes-Accepted c h in (Accepted-Acceptable a, same)),
    λ (a, same). accepted_passes (Acceptable-Accepted a) ∙ ap ok (sym same),
  )

  -- A classified event may become a canonical resolution only if the owner is its author, the
  -- source covers the owner, its consent is not an unverified legacy one, and its kind is a
  -- resolution or an override.
  pub promotion_is_owned :
      (c : EventClassification)
      → classify_event canonical_content r ≡ ok c
      → may_promote_resolution c ≡ true
      → (is_owner r.reported_actor ≡ true)
        × (r.provenance.author_scope ≢ agent_only)
        × (is_legacy_consent r.provenance.consent_mode ≡ false)
        × (event_type_in r.event_type
              (DecisionIoEventType.decision_resolution ∷ DecisionIoEventType.user_override ∷ [])
            ≡ true)
  promotion_is_owned c h p =
      let (a, same) = passes-Accepted c h in
      promoted a (subst (λ d. may_promote_resolution d ≡ true) same p)
