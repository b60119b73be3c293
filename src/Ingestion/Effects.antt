-- ===== src/Ingestion/Effects.antt =====
-- What each write of a committed transaction does to the tables.
use soulmate.Prelude.{
  String, ◌≡◌, refl, sym, ap, ◌∙◌, Bool, true, false, not, Option, none, some, List, [], ◌∷◌, ◌++◌,
  any, find, inl, inr, Option-cases, update_where, ◌==◌,
}
use soulmate.Exec.{ok, bind, ok_inj, ok-ne-err, passed}
use soulmate.Domain.Sources.{RawEvent}
use soulmate.Domain.Decisions.{DecisionEvent, DecisionOption, DecisionResolution, is_open}
use soulmate.DecisionIo.Observations.{ResolutionObservation, OutcomeObservation}
use soulmate.Domain.Evidence.{Evidence}
use soulmate.Ingestion.Store.{
  insert_if, has_event, resolution_refers, outcome_refers, IngestionStore, Write, insert,
  integrity_error, option_not_found, decision_already_resolved, insert_event, insert_options,
  insert_decision, insert_resolution_observation, insert_outcome_observation, insert_evidence,
  has_source, event_clash, decision_clash, resolution_clash, observation_clash, outcome_clash,
  attach_if_external, attach_unmatched, bump_if_any, option_belongs, decision_at, close_decision,
}
use soulmate.Ingestion.Transaction.{resolve_decision, apply_resolution}
use soulmate.Ingestion.Steps.{inserted_if, reached, inserted, options-kept}

pub event_added :
    (e : RawEvent) (s s' : IngestionStore)
    → insert_event e s ≡ ok s'
    → (any (event_clash e) s.events ≡ false) × (s' ≡ record s { events = s.events ++ e ∷ [] })
unfolding insert_event
event_added e s s' h =
    let (_, k) =
      passed integrity_error (not (has_source e.source_id s))
        (λ _. bind (insert event_clash e s.events) λ rows. ok (record s { events = rows })) h in
    let (rows, i, last) =
      reached (insert event_clash e s.events) (λ rows. ok (record s { events = rows })) k in
    let (free, same) = inserted event_clash e s.events i in
    (free, sym (ok_inj last) ∙ ap (λ r. record s { events = r }) same)

-- A view of neither the decisions, the options nor the observations
module _ {ℓ} {T : Type ℓ} (view : IngestionStore → T)
    (no_options : (s : IngestionStore) (rows : List DecisionOption)
      → view (record s { options = rows }) ≡ view s)
    (no_decisions : (s : IngestionStore) (rows : List DecisionEvent)
      → view (record s { decisions = rows }) ≡ view s)
    (no_observations : (s : IngestionStore) (o : List ResolutionObservation)
        (p : List OutcomeObservation)
      → view (record s { resolution_observations = o; outcome_observations = p }) ≡ view s) where
  attached-kept :
      (d : DecisionEvent) (external source : Option String) (s : IngestionStore)
      → view (attach_if_external d external source s) ≡ view s
  unfolding attach_unmatched
  attached-kept d none source s = refl
  attached-kept d (some external) none s = refl
  attached-kept d (some external) (some source) s = no_observations s _ _

  pub decision-kept :
      (d : Option (DecisionEvent × List DecisionOption)) (s s' : IngestionStore)
      → insert_decision d s ≡ ok s'
      → view s' ≡ view s
  unfolding insert_decision
  decision-kept none s s' h = ap view (sym (ok_inj h))
  decision-kept (some (d, options)) s s' h =
      let (rows, _, k) =
        reached (insert decision_clash d s.decisions)
          (λ rows.
            bind (insert_options options (record s { decisions = rows }))
              λ x. ok (attach_if_external d d.external_decision_id d.source_id x))
          h in
      let (s1, o, last) =
        reached (insert_options options (record s { decisions = rows }))
          (λ x. ok (attach_if_external d d.external_decision_id d.source_id x)) k in
      ap view (sym (ok_inj last))
      ∙ attached-kept d d.external_decision_id d.source_id s1
      ∙ options-kept view no_options options (record s { decisions = rows }) s1 o
      ∙ no_decisions s rows

  pub resolution_observation-kept :
      (o : Option ResolutionObservation) (s s' : IngestionStore)
      → insert_resolution_observation o s ≡ ok s'
      → view s' ≡ view s
  unfolding insert_resolution_observation
  resolution_observation-kept none s s' h = ap view (sym (ok_inj h))
  resolution_observation-kept (some o) s s' h =
      let (_, k) =
        passed integrity_error (not (resolution_refers o s))
          (λ _.
            bind (insert observation_clash o s.resolution_observations)
              λ rows. ok (record s { resolution_observations = rows }))
          h in
      let (rows, _, last) =
        reached (insert observation_clash o s.resolution_observations)
          (λ rows. ok (record s { resolution_observations = rows })) k in
      ap view (sym (ok_inj last)) ∙ no_observations s rows s.outcome_observations

  pub outcome_observation-kept :
      (o : Option OutcomeObservation) (s s' : IngestionStore)
      → insert_outcome_observation o s ≡ ok s'
      → view s' ≡ view s
  unfolding insert_outcome_observation
  outcome_observation-kept none s s' h = ap view (sym (ok_inj h))
  outcome_observation-kept (some o) s s' h =
      let (_, k) =
        passed integrity_error (not (outcome_refers o s))
          (λ _.
            bind (insert outcome_clash o s.outcome_observations)
              λ rows. ok (record s { outcome_observations = rows }))
          h in
      let (rows, _, last) =
        reached (insert outcome_clash o s.outcome_observations)
          (λ rows. ok (record s { outcome_observations = rows })) k in
      ap view (sym (ok_inj last)) ∙ no_observations s s.resolution_observations rows

-- What `_apply_resolution` did where it returned
pub record Applied (r : DecisionResolution) (items : List Evidence) (s s' : IngestionStore)
    : Type 0 where
  pub decision : DecisionEvent
  pub found : find (decision_at r.decision_id) s.decisions ≡ some decision
  was_open : is_open decision.status ≡ true
  belongs :
      option_belongs
        (find (λ (o : DecisionOption). o.id == r.chosen_option_id) s.options)
        decision.id
      ≡ true
  pub alone : any (resolution_clash r) s.resolutions ≡ false
  pub learned : IngestionStore
  pub inserts :
      insert_evidence items (record s {
        resolutions = s.resolutions ++ r ∷ [];
        decisions = update_where (decision_at decision.id) close_decision s.decisions;
      })
      ≡ ok learned
  pub after : s' ≡ bump_if_any items decision.profile_id learned

abbrev store_learned :
    DecisionResolution
    → List Evidence
    → DecisionEvent
    → IngestionStore
    → List DecisionResolution
    → Write
store_learned r items d s rows =
    bind
      (insert_evidence items (record s {
        resolutions = rows;
        decisions = update_where (decision_at d.id) close_decision s.decisions;
      }))
      λ x. ok (bump_if_any items d.profile_id x)

not-false : {b : Bool} → not b ≡ false → b ≡ true
not-false {b = true} h = refl
not-false {b = false} h = sym h

pub apply_resolution-Applied :
    (r : DecisionResolution) (items : List Evidence) (s s' : IngestionStore)
    → apply_resolution r items s ≡ ok s'
    → Applied r items s s'
unfolding apply_resolution resolve_decision
apply_resolution-Applied r items s s' h =
    elim (Option-cases (find (decision_at r.decision_id) s.decisions)) [
      | inl missing ↦ absurd (ok-ne-err (sym (rw missing at h)))
      | inr (d, found) ↦
          let (belongs, k) =
            passed option_not_found
              (not (
                option_belongs (find (λ (o : DecisionOption). o.id == r.chosen_option_id) s.options)
                  d.id))
              (λ _. resolve_decision r items d s) (rw found at h) in
          let (opened, k1) =
            passed decision_already_resolved (not (is_open d.status))
              (λ _.
                bind (insert_if (has_event r.source_event_id s) resolution_clash r s.resolutions)
                  (store_learned r items d s))
              k in
          let (rows, i, k2) =
            reached (insert_if (has_event r.source_event_id s) resolution_clash r s.resolutions)
              (store_learned r items d s) k1 in
          let (alone, same) =
            inserted_if (has_event r.source_event_id s) resolution_clash r s.resolutions i in
          let (learned, j, last) =
            reached
              (insert_evidence items (record s {
                resolutions = rows;
                decisions = update_where (decision_at d.id) close_decision s.decisions;
              }))
              (λ x. ok (bump_if_any items d.profile_id x)) k2 in
          record {
            decision = d;
            found = found;
            was_open = not-false opened;
            belongs = not-false belongs;
            alone = alone;
            learned = learned;
            inserts =
                ap
                  (λ x. insert_evidence items (record s {
                    resolutions = x;
                    decisions = update_where (decision_at d.id) close_decision s.decisions;
                  }))
                  (sym same)
                ∙ j;
            after = sym (ok_inj last);
          }
    ]
