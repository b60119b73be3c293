-- ===== src/Ingestion/Retry.antt =====
-- A retry of an event replays it, and another content under the same external id is a conflict.
use soulmate.Prelude.{
  String, ◌≡◌, refl, sym, ap, ◌∙◌, true, false, ◌&&◌, Option, none, some, is_none, List, [], ◌∷◌,
  ◌++◌, find, inl, inr, Bool-cases, Option-cases, find-append_none, eq_iff, arith, false≢true,
}
use soulmate.Exec.{Result, ok, err, Result-cases, ok_inj, ok-ne-err}
use soulmate.Domain.Sources.{RawEvent}
use soulmate.Domain.Decisions.{DecisionResolution}
use soulmate.Domain.Evidence.{Evidence}
use soulmate.Ingestion.Records.{IngestionWrite, write_ok, IngestionResult, eq_text}
use soulmate.Ingestion.Store.{
  IngestionStore, StoreError, external_event_conflict, both_equal, bump_if_any,
}
use soulmate.Ingestion.Transaction.{
  same_event, ingest, ingest_after, ingest_new, replay, apply_if_any,
}
use soulmate.Ingestion.Steps.{Committed, ingest_new-Committed, evidence-kept}
use soulmate.Ingestion.Effects.{
  event_added, decision-kept, resolution_observation-kept, outcome_observation-kept,
  apply_resolution-Applied,
}

-- A view of the sources, the events and the observations is not changed by a resolution.
module _ {ℓ} {T : Type ℓ} (view : IngestionStore → T)
    (no_keys : (s : IngestionStore) (k : _) → view (record s { keys = k }) ≡ view s)
    (no_resolutions : (s : IngestionStore) (r : _) (d : _)
      → view (record s { resolutions = r; decisions = d }) ≡ view s) where
  bump-kept :
      (items : List Evidence) (p : String) (s : IngestionStore)
      → view (bump_if_any items p s) ≡ view s
  bump-kept [] p s = refl
  bump-kept (e ∷ items) p s = no_keys s _

  resolution-kept :
      (r : Option DecisionResolution) (items : List Evidence) (s s' : IngestionStore)
      → apply_if_any r items s ≡ ok s'
      → view s' ≡ view s
  resolution-kept none items s s' h = ap view (sym (ok_inj h))
  resolution-kept (some r) items s s' h =
      let a = apply_resolution-Applied r items s s' h in
      ap view a.after
      ∙ bump-kept items a.decision.profile_id a.learned
      ∙ evidence-kept view (λ x rows. no_keys x _) items _ a.learned a.inserts
      ∙ no_resolutions s _ _

-- The event of a committed write is the last of the events.
Committed-events :
    (w : IngestionWrite) (s : IngestionStore) {r : IngestionResult} {s' : IngestionStore}
    → Committed w s r s'
    → s'.events ≡ s.events ++ w.event ∷ []
Committed-events w s {s' = s'} c =
    let view = λ (x : IngestionStore). x.events in
    resolution-kept view (λ x k. refl) (λ x r d. refl) w.resolution w.evidence c.s4 s' c.resolution
    ∙ outcome_observation-kept view (λ x r. refl) (λ x r. refl) (λ x o p. refl)
        w.outcome_observation c.s3 c.s4 c.outcome_observation
    ∙ resolution_observation-kept view (λ x r. refl) (λ x r. refl) (λ x o p. refl)
        w.resolution_observation c.s2 c.s3 c.resolution_observation
    ∙ decision-kept view (λ x r. refl) (λ x r. refl) (λ x o p. refl) w.decision c.s1 c.s2 c.decision
    ∙ ap view (event_added w.event s c.s1 c.event).1

present : (o : Option String) → is_none o ≡ false → both_equal o o ≡ true
present none h = absurd (false≢true (sym h))
present (some t) h = (eq_iff t t).1 refl

eq_text_refl : (o : Option String) → eq_text o o ≡ true
eq_text_refl none = refl
eq_text_refl (some t) = (eq_iff t t).1 refl

eq_text_path : (o p : Option String) → eq_text o p ≡ true → o ≡ p
eq_text_path none none h = refl
eq_text_path none (some t) h = absurd (false≢true h)
eq_text_path (some t) none h = absurd (false≢true h)
eq_text_path (some t) (some u) h = ap some ((eq_iff t u).0 h)

same_event_refl : (w : IngestionWrite) → write_ok w ≡ true → same_event w.event w.event ≡ true
unfolding write_ok
same_event_refl w h =
    rw
      (
        present w.event.source_id (ground arith),
        present w.event.provenance.external_event_id (ground arith),
      )
      refl

-- The stored event of a write, after it was ingested
pub record StoredEvent (w : IngestionWrite) (r : IngestionResult) (s : IngestionStore)
    : Type 0 where
  pub event : RawEvent
  pub found : find (same_event w.event) s.events ≡ some event
  pub same_id : event.id ≡ r.event_id
  same_content : event.provenance.content_fingerprint ≡ w.event.provenance.content_fingerprint

module _ (w : IngestionWrite) (s : IngestionStore) (valid : write_ok w ≡ true) (r : IngestionResult)
    (s1 : IngestionStore) where
  new-StoredEvent :
      find (same_event w.event) s.events ≡ none → ingest_new w s ≡ ok (r, s1) → StoredEvent w r s1
  unfolding find
  new-StoredEvent absent h =
      let c = ingest_new-Committed w s h in
      let rows = Committed-events w s c in
      record {
        event = w.event;
        found =
            ap (find (same_event w.event)) rows
            ∙ find-append_none (same_event w.event) s.events (w.event ∷ []) absent
            ∙ rw (same_event_refl w valid) refl;
        same_id = sym (ap (λ (x : IngestionResult). x.event_id) c.result_is);
        same_content = refl;
      }

  replayed-StoredEvent :
      (e : RawEvent)
      → find (same_event w.event) s.events ≡ some e
      → ingest_after w (some e) s ≡ (ok r, s1)
      → StoredEvent w r s1
  unfolding replay
  replayed-StoredEvent e found h =
      elim (Bool-cases
        (eq_text e.provenance.content_fingerprint w.event.provenance.content_fingerprint)) [
          | inr differs ↦ absurd (
              ok-ne-err (
                sym (
                  ap (λ (x : Result StoreError IngestionResult × IngestionStore). x.0)
                    (rw differs at h))))
          | inl same ↦
              let e1 = rw same at h in
              let store = ap (λ (x : Result StoreError IngestionResult × IngestionStore). x.1) e1 in
              let result =
                ok_inj (ap (λ (x : Result StoreError IngestionResult × IngestionStore). x.0) e1) in
              record {
                event = e;
                found =
                    ap (λ (x : IngestionStore). find (same_event w.event) x.events) (sym store)
                    ∙ found;
                same_id = ap (λ (x : IngestionResult). x.event_id) result;
                same_content = eq_text_path _ _ same;
              }
        ]

  ingest-StoredEvent : ingest w s ≡ (ok r, s1) → StoredEvent w r s1
  unfolding ingest
  ingest-StoredEvent h = elim (Option-cases (find (same_event w.event) s.events)) [
    | inr (e, found) ↦ replayed-StoredEvent e found (rw found at h)
    | inl absent ↦ elim (Result-cases (ingest_new w s)) [
      | inl (x, bad) ↦ absurd (
          ok-ne-err (
            sym (
              ap (λ (p : Result StoreError IngestionResult × IngestionStore). p.0)
                (rw (absent, bad) at h))))
      | inr ((r', s'), done) ↦
          let e = rw (absent, done) at h in
          new-StoredEvent absent (
            done ∙ λ i. ok (
              ok_inj (ap (λ (p : Result StoreError IngestionResult × IngestionStore). p.0) e) i,
              ap (λ (p : Result StoreError IngestionResult × IngestionStore). p.1) e i,
            ))
    ]
  ]

-- After an event has been ingested, a retry with its source, external id and content returns the
-- stored event as a duplicate and changes nothing; the same source and external id with another
-- content is a conflict, and changes nothing either.
pub ingest-ingest :
    (w w' : IngestionWrite) (s s1 : IngestionStore) (r : IngestionResult)
    → write_ok w ≡ true
    → ingest w s ≡ (ok r, s1)
    → w'.event.source_id ≡ w.event.source_id
    → w'.event.provenance.external_event_id ≡ w.event.provenance.external_event_id
    → (w'.event.provenance.content_fingerprint ≡ w.event.provenance.content_fingerprint
        → (again : IngestionResult) × (ingest w' s1 ≡ (ok again, s1))
          × (again.event_id ≡ r.event_id)
          × (again.duplicate ≡ true))
      × (eq_text w.event.provenance.content_fingerprint w'.event.provenance.content_fingerprint
            ≡ false
          → ingest w' s1 ≡ (err external_event_conflict, s1))
unfolding ingest replay
ingest-ingest w w' s s1 r valid done same_source same_external =
    let stored = ingest-StoredEvent w s valid r s1 done in
    let found : find (same_event w'.event) s1.events ≡ some stored.event =
      ap
        (λ (k : Option String × Option String).
          find
            (λ (row : RawEvent).
              both_equal row.source_id k.0 && both_equal row.provenance.external_event_id k.1)
            s1.events)
        (λ i. (same_source i, same_external i))
      ∙ stored.found in
    (
      λ same.
          let equal =
            ap (λ x. eq_text x w'.event.provenance.content_fingerprint)
              (stored.same_content ∙ sym same)
            ∙ eq_text_refl w'.event.provenance.content_fingerprint in
          (replay stored.event s1, rw (found, equal) refl, stored.same_id, refl),
      λ differs.
          let other =
            ap (λ x. eq_text x w'.event.provenance.content_fingerprint) stored.same_content
            ∙ differs in
          rw (found, other) refl,
    )
