-- ===== src/Ingestion/Growth.antt =====
-- What the calls that ingest and confirm do to the resolutions of a decision.
use soulmate.Prelude.{
  ℕ, String, ◌≡◌, ◌≢◌, ◌⊎◌, refl, sym, ap, subst, ◌∙◌, false≢true, Bool, true, false, Option, none,
  some, List, [], ◌∷◌, ◌++◌, ◌==◌, any, find, filter, inl, inr, Bool-cases, Option-cases, arith,
  eq_iff, eq_refl,
}
use soulmate.Exec.{Result, ok, Result-cases, ok_inj, ok-ne-err}
use soulmate.DecisionIo.Provenance.{ObservationStatus}
use soulmate.DecisionIo.Observations.{ResolutionObservation}
use soulmate.Domain.Decisions.{DecisionResolution}
use soulmate.Domain.Evidence.{Evidence}
use soulmate.Ingestion.Records.{IngestionWrite, IngestionResult, eq_text}
use soulmate.Ingestion.Store.{IngestionStore, resolution_clash, bump_if_any}
use soulmate.Ingestion.Transaction.{same_event, ingest, ingest_new, replay, apply_if_any}
use soulmate.Ingestion.Observations.{
  observed_at, confirmable, confirm_found, confirm_resolution_observation,
}
use soulmate.Ingestion.Steps.{reached, Committed, ingest_new-Committed, evidence-kept}
use soulmate.Ingestion.Effects.{
  event_added, decision-kept, resolution_observation-kept, outcome_observation-kept, Applied,
  apply_resolution-Applied,
}

abbrev pub of_decision : String → DecisionResolution → Bool
of_decision id r = id == r.decision_id

abbrev pub resolutions_of : String → IngestionStore → List DecisionResolution
resolutions_of id s = filter (of_decision id) s.resolutions

-- A call that adds a resolution, which clashes with none
abbrev pub Added : DecisionResolution → IngestionStore → IngestionStore → Type 0
Added r s s' =
    (any (resolution_clash r) s.resolutions ≡ false) × (s'.resolutions ≡ s.resolutions ++ r ∷ [])

-- The rows of the resolutions, before and after a call
pub data Grows (s s' : IngestionStore) : Type 0 where
  same : s'.resolutions ≡ s.resolutions → Grows s s'
  added : (r : DecisionResolution) → Added r s s' → Grows s s'

-- A resolution that clashes with no row is the first of its decision.
pub first_of_decision :
    (r : DecisionResolution) (rows : List DecisionResolution)
    → any (resolution_clash r) rows ≡ false
    → filter (of_decision r.decision_id) rows ≡ []
unfolding filter
first_of_decision r [] h = refl
first_of_decision r (q ∷ rows) h = elim (Bool-cases (r.decision_id == q.decision_id)) [
  | inl hit ↦ absurd (ground arith)
  | inr miss ↦ rw miss (first_of_decision r rows (ground arith))
]

-- Once it is added, it is the only one.
pub only_of_decision :
    (r : DecisionResolution) (rows : List DecisionResolution)
    → any (resolution_clash r) rows ≡ false
    → filter (of_decision r.decision_id) (rows ++ r ∷ []) ≡ r ∷ []
unfolding filter
only_of_decision r [] h = rw (eq_refl r.decision_id) refl
only_of_decision r (q ∷ rows) h = elim (Bool-cases (r.decision_id == q.decision_id)) [
  | inl hit ↦ absurd (ground arith)
  | inr miss ↦ rw miss (only_of_decision r rows (ground arith))
]

filter_last :
    (id : String) (r : DecisionResolution) (rows : List DecisionResolution)
    → of_decision id r ≡ false
    → filter (of_decision id) (rows ++ r ∷ []) ≡ filter (of_decision id) rows
unfolding filter
filter_last id r [] h = rw h refl
filter_last id r (q ∷ rows) h = elim (Bool-cases (of_decision id q)) [
  | inl hit ↦ rw hit (ap (λ x. q ∷ x) (filter_last id r rows h))
  | inr miss ↦ rw miss (filter_last id r rows h)
]

pub Grows-final :
    {s s' : IngestionStore} (id : String)
    → Grows s s'
    → resolutions_of id s ≢ []
    → resolutions_of id s' ≡ resolutions_of id s
Grows-final id (same e) h = ap (filter (of_decision id)) e
Grows-final {s = s} id (added r (alone, e)) h = elim (Bool-cases (of_decision id r)) [
  | inl hit ↦ absurd (
      h (
        ap (λ x. filter (of_decision x) s.resolutions) ((eq_iff id r.decision_id).0 hit)
        ∙ first_of_decision r s.resolutions alone))
  | inr miss ↦ ap (filter (of_decision id)) e ∙ filter_last id r s.resolutions miss
]

bumped_resolutions :
    (items : List Evidence) (p : String) (s : IngestionStore)
    → (bump_if_any items p s).resolutions ≡ s.resolutions
bumped_resolutions [] p s = refl
bumped_resolutions (e ∷ items) p s = refl

Applied-resolutions :
    {r : DecisionResolution} {items : List Evidence} {s s' : IngestionStore}
    → Applied r items s s'
    → s'.resolutions ≡ s.resolutions ++ r ∷ []
Applied-resolutions {items = items} a =
    let view = λ (x : IngestionStore). x.resolutions in
    ap view a.after
    ∙ bumped_resolutions items a.decision.profile_id a.learned
    ∙ evidence-kept view (λ x rows. refl) items _ a.learned a.inserts

Committed-resolutions :
    (w : IngestionWrite) (s : IngestionStore) {result : IngestionResult} {s' : IngestionStore}
    (c : Committed w s result s')
    → c.s4.resolutions ≡ s.resolutions
Committed-resolutions w s c =
    let view = λ (x : IngestionStore). x.resolutions in
    outcome_observation-kept view (λ x r. refl) (λ x r. refl) (λ x o p. refl) w.outcome_observation
      c.s3 c.s4 c.outcome_observation
    ∙ resolution_observation-kept view (λ x r. refl) (λ x r. refl) (λ x o p. refl)
        w.resolution_observation c.s2 c.s3 c.resolution_observation
    ∙ decision-kept view (λ x r. refl) (λ x r. refl) (λ x o p. refl) w.decision c.s1 c.s2 c.decision
    ∙ ap view (event_added w.event s c.s1 c.event).1

-- A transaction from `base`, which has the resolutions of `s`, that resolves a decision
Applied-Added :
    {r : DecisionResolution} {items : List Evidence} (s base : IngestionStore) {s' : IngestionStore}
    → base.resolutions ≡ s.resolutions
    → Applied r items base s'
    → Added r s s'
Applied-Added {r = r} s base e a = (
  ap (any (resolution_clash r)) (sym e) ∙ a.alone,
  Applied-resolutions a ∙ ap (λ x. x ++ r ∷ []) e,
)

-- What a call that ingests did: it changed nothing and failed or found a duplicate, or it stored a
-- new event.
module _ (w : IngestionWrite) (s : IngestionStore) where
  Committed-Added :
      {result : IngestionResult} {s' : IngestionStore} (r : DecisionResolution)
      → w.resolution ≡ some r
      → Committed w s result s'
      → Added r s s'
  Committed-Added {s' = s'} r e c = Applied-Added s c.s4 (Committed-resolutions w s c) (
      apply_resolution-Applied r w.evidence c.s4 s'
        (ap (λ x. apply_if_any x w.evidence c.s4) (sym e) ∙ c.resolution))

  Committed-Grows :
      {result : IngestionResult} {s' : IngestionStore} (r : Option DecisionResolution)
      → w.resolution ≡ r
      → Committed w s result s'
      → Grows s s'
  Committed-Grows {s' = s'} none e c = same (
      ap (λ (x : IngestionStore). x.resolutions)
        (sym (ok_inj (ap (λ x. apply_if_any x w.evidence c.s4) (sym e) ∙ c.resolution)))
      ∙ Committed-resolutions w s c)
  Committed-Grows (some r) e c = added r (Committed-Added r e c)

  pub ingest-Grows : Grows s (ingest w s).1
  unfolding ingest
  ingest-Grows = elim (Option-cases (find (same_event w.event) s.events)) [
    | inr (e, found) ↦
        elim (Bool-cases
          (eq_text e.provenance.content_fingerprint w.event.provenance.content_fingerprint)) [
            | inl equal ↦ rw (found, equal) (same refl)
            | inr differs ↦ rw (found, differs) (same refl)
          ]
    | inl absent ↦ elim (Result-cases (ingest_new w s)) [
      | inl (x, bad) ↦ rw (absent, bad) (same refl)
      | inr ((result, s'), done) ↦
          rw (absent, done) (Committed-Grows w.resolution refl (ingest_new-Committed w s done))
    ]
  ]

  -- A resolution is stored with a new event only if it clashes with none.
  pub ingest-alone :
      (r : DecisionResolution) (result : IngestionResult)
      → w.resolution ≡ some r
      → (ingest w s).0 ≡ ok result
      → (result.duplicate ≡ true) ⊎ (any (resolution_clash r) s.resolutions ≡ false)
  unfolding ingest replay
  ingest-alone r result e h = elim (Option-cases (find (same_event w.event) s.events)) [
    | inr (x, found) ↦
        elim (Bool-cases
          (eq_text x.provenance.content_fingerprint w.event.provenance.content_fingerprint)) [
            | inl equal ↦
                inl (
                  ap (λ (y : IngestionResult). y.duplicate) (sym (ok_inj (rw (found, equal) at h))))
            | inr differs ↦ absurd (ok-ne-err (sym (rw (found, differs) at h)))
          ]
    | inl absent ↦ elim (Result-cases (ingest_new w s)) [
      | inl (x, bad) ↦ absurd (ok-ne-err (sym (rw (absent, bad) at h)))
      | inr ((y, s'), done) ↦ inr (Committed-Added r e (ingest_new-Committed w s done)).0
    ]
  ]

-- A transaction that may confirm an observation
module _ (expected : ObservationStatus) (r : DecisionResolution) (items : List Evidence)
    (confirmed_at : ℕ) (s : IngestionStore) where
  not_confirmed :
      {X : Type 0} {b : Bool} {s' : IngestionStore} {E : Type 0}
      → Path (Result E (Bool × IngestionStore)) (ok (false, s)) (ok (b, s'))
      → ((b ≡ true) → X) × Grows s s'
  not_confirmed h =
      let e = ok_inj h in
      (
        λ yes_. absurd (false≢true (ap (λ (p : Bool × IngestionStore). p.0) e ∙ yes_)),
        same (ap (λ (p : Bool × IngestionStore). p.1.resolutions) (sym e)),
      )

  confirm_found-Grows :
      (o : Option ResolutionObservation) {b : Bool} {s' : IngestionStore}
      → confirm_found expected r items confirmed_at o s ≡ ok (b, s')
      → ((b ≡ true) → Added r s s') × Grows s s'
  confirm_found-Grows none h = not_confirmed h
  confirm_found-Grows (some o) {s' = s'} h = elim (Bool-cases (confirmable expected r o)) [
    | inr off ↦ not_confirmed (rw off at h)
    | inl on ↦
        let (s1, applied, last) = reached _ _ (rw on at h) in
        let kept = ap (λ (p : Bool × IngestionStore). p.1) (ok_inj last) in
        let new =
          subst (Added r s) kept
            (Applied-Added s _ refl (apply_resolution-Applied r items _ s1 applied)) in
        ((λ b. new), added r new)
  ]

pub confirm-Grows :
    (id : String) (expected : ObservationStatus) (r : DecisionResolution) (items : List Evidence)
    (at : ℕ) (s : IngestionStore)
    → ((confirm_resolution_observation id expected r items at s).0 ≡ ok true
        → Added r s (confirm_resolution_observation id expected r items at s).1)
      × Grows s (confirm_resolution_observation id expected r items at s).1
unfolding confirm_resolution_observation
confirm-Grows id expected r items at s =
    elim (Result-cases
      (confirm_found expected r items at (find (observed_at id) s.resolution_observations) s)) [
        | inl (x, bad) ↦ (λ h. absurd (ok-ne-err (sym (rw bad at h))), rw bad (same refl))
        | inr ((b, s'), done) ↦
            let (new, grows) =
              confirm_found-Grows expected r items at s
                (find (observed_at id) s.resolution_observations) done in
            (λ h. rw done (new (ok_inj (rw done at h))), rw done grows)
      ]
