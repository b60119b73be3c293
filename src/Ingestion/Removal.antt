-- ===== src/Ingestion/Removal.antt =====
-- The removal of a source leaves nothing of it.
use soulmate.Prelude.{
  String, ◌≡◌, refl, sym, ap, subst, ◌∙◌, Bool, true, false, not, none, some, any, delete_where,
  inl, inr, Bool-cases, any-delete_where, misses-delete_where, stronger-delete_where, ◌==◌,
  none-ne-some, eqb,
}
use soulmate.Exec.{Result, ok, err, bind, reject_if, ok_inj, ok-ne-err, passed}
use soulmate.Domain.Sources.{Source}
use soulmate.Domain.Decisions.{DecisionOption, DecisionResolution}
use soulmate.Keys.Aliases.{Error}
use soulmate.Keys.Store.{KeyStore, bump_evidence_revision}
use soulmate.Keys.Supported.{prune_unsupported_keys}
use soulmate.Keys.Prune.{prune-evidence, prune_once}
use soulmate.Ingestion.Records.{DecisionIoSourceRemoval}
use soulmate.Ingestion.Store.{IngestionStore, integrity_error}
use soulmate.Ingestion.Sources.{
  event_from, decision_from, resolution_from, outcome_from, deleted_decision, without_decisions,
  without_events, derived_from, restricted, removal_counts, RemovalError, violates, pruned_keys,
  prune_if, removable, get_source, Removed, commit_removal, remove_source,
}

module _ (profile_id source_id : String) (s : IngestionStore) where
  -- What is left of a source, and of the others
  pub record Gone (s' : IngestionStore) : Type 0 where
    pub sources : s'.sources ≡ delete_where (λ (x : Source). x.id == source_id) s.sources
    pub events : s'.events ≡ delete_where (event_from source_id) s.events
    pub decisions : s'.decisions ≡ delete_where (decision_from source_id) s.decisions
    pub no_resolution_observations :
        any (resolution_from source_id) s'.resolution_observations ≡ false
    pub no_outcome_observations : any (outcome_from source_id) s'.outcome_observations ≡ false
    pub no_options :
        any
          (λ (o : DecisionOption). deleted_decision source_id s.decisions o.decision_id)
          s'.options
        ≡ false
    pub no_resolutions :
        any
          (λ (r : DecisionResolution). deleted_decision source_id s.decisions r.decision_id)
          s'.resolutions
        ≡ false
    pub no_evidence : any (derived_from source_id s) s'.keys.evidence ≡ false

  abbrev emptied : IngestionStore
  emptied = without_events source_id (without_decisions source_id s)

  emptied-Gone : Gone emptied
  unfolding without_events without_decisions
  emptied-Gone = record {
    sources = refl;
    events = refl;
    decisions = refl;
    no_resolution_observations = misses-delete_where (resolution_from source_id) _ _ (
        stronger-delete_where (resolution_from source_id) _ (λ o h. rw h refl)
          s.resolution_observations);
    no_outcome_observations = misses-delete_where (outcome_from source_id) _ _ (
        stronger-delete_where (outcome_from source_id) _ (λ o h. rw h refl) s.outcome_observations);
    no_options = any-delete_where _ s.options;
    no_resolutions = any-delete_where _ s.resolutions;
    no_evidence = any-delete_where (derived_from source_id s) s.keys.evidence;
  }

  with_keys-Gone :
      (t : IngestionStore) (keys : KeyStore)
      → keys.evidence ≡ t.keys.evidence
      → Gone t
      → Gone (record t { keys = keys })
  with_keys-Gone t keys same g = record {
    sources = g.sources;
    events = g.events;
    decisions = g.decisions;
    no_resolution_observations = g.no_resolution_observations;
    no_outcome_observations = g.no_outcome_observations;
    no_options = g.no_options;
    no_resolutions = g.no_resolutions;
    no_evidence = ap (any (derived_from source_id s)) same ∙ g.no_evidence;
  }

  pruned-Gone :
      (b : Bool) (t t' : IngestionStore) → Gone t → prune_if b profile_id t ≡ ok t' → Gone t'
  unfolding bump_evidence_revision
  pruned-Gone false t t' g h = subst Gone (ok_inj h) g
  pruned-Gone true t t' g h =
      let out = prune_unsupported_keys profile_id t.keys in
      let fine = (prune_once profile_id t.keys).0 in
      let done : pruned_keys profile_id (ok tt, out.1) t ≡ ok t' =
        ap (λ (r : Result Error (Unit {0})). pruned_keys profile_id (r, out.1) t) (sym fine) ∙ h in
      subst Gone (ok_inj done) (
        with_keys-Gone t (bump_evidence_revision profile_id out.1)
          (prune-evidence profile_id t.keys) g)

  -- The three ways a removal ends
  Ends : Removed → IngestionStore → Type 0
  Ends r s' =
      ((found : DecisionIoSourceRemoval) → r ≡ ok (some found) → Gone s')
      × ((r ≡ ok none) → s' ≡ s)
      × ((e : RemovalError) → r ≡ err e → s' ≡ s)

  committed-Ends :
      (counts : DecisionIoSourceRemoval) (body : Result RemovalError IngestionStore) (r : Removed)
      (s' : IngestionStore)
      → ((t : IngestionStore) → body ≡ ok t → Gone t)
      → commit_removal counts body s ≡ (r, s')
      → Ends r s'
  unfolding Ends
  committed-Ends counts (err e) r s' good h =
      let result = ap (λ (x : Removed × IngestionStore). x.0) h in
      let store = sym (ap (λ (x : Removed × IngestionStore). x.1) h) in
      (λ found k. absurd (ok-ne-err (sym (result ∙ k))), λ k. store, λ x k. store)
  committed-Ends counts (ok t) r s' good h =
      let result = ap (λ (x : Removed × IngestionStore). x.0) h in
      (
        λ found k. subst Gone (ap (λ (x : Removed × IngestionStore). x.1) h) (good t refl),
        λ k. absurd (none-ne-some (sym (ok_inj (result ∙ k)))),
        λ x k. absurd (ok-ne-err (result ∙ k)),
      )

  body-Gone :
      (b : Bool) (t : IngestionStore)
      → bind
          (reject_if
            (restricted source_id (without_decisions source_id s))
            (violates integrity_error))
          (λ _. prune_if b profile_id emptied)
        ≡ ok t
      → Gone t
  body-Gone b t h =
      let (_, k) =
        passed (violates integrity_error) (restricted source_id (without_decisions source_id s))
          (λ _. prune_if b profile_id emptied) h in
      pruned-Gone b emptied t emptied-Gone k

  -- Where the removal of a source reports its counts, the source, its events, its decisions with
  -- their options and resolutions, its observations and the evidence from its events are gone, and
  -- of the sources, events and decisions nothing else is. Where it reports none or fails, the store
  -- is unchanged.
  pub remove_source-Gone :
      (r : Removed) (s' : IngestionStore)
      → remove_source profile_id source_id s ≡ (r, s')
      → ((found : DecisionIoSourceRemoval) → r ≡ ok (some found) → Gone s')
        × ((r ≡ ok none) → s' ≡ s)
        × ((e : RemovalError) → r ≡ err e → s' ≡ s)
  unfolding remove_source Ends
  remove_source-Gone r s' h = elim (Bool-cases (removable profile_id (get_source source_id s))) [
    | inr off ↦
        let k = rw off at h in
        let store = sym (ap (λ (x : Removed × IngestionStore). x.1) k) in
        (
          λ found e.
              absurd (none-ne-some (ok_inj (ap (λ (x : Removed × IngestionStore). x.0) k ∙ e))),
          λ e. store,
          λ x e. store,
        )
    | inl on ↦
        committed-Ends (removal_counts source_id s) _ r s'
          (body-Gone (not (eqb (removal_counts source_id s).evidence_count 0))) (rw on at h)
  ]
