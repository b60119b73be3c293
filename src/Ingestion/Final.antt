-- ===== src/Ingestion/Final.antt =====
-- The resolution of a decision is final, whatever calls follow.
use soulmate.Prelude.{
  ℕ, String, ◌≡◌, ◌≢◌, refl, sym, ◌∙◌, true, false, Option, some, List, [], ◌∷◌, any, inl, inr,
}
use soulmate.Exec.{ok}
use soulmate.DecisionIo.Provenance.{ObservationStatus}
use soulmate.Domain.Decisions.{DecisionResolution}
use soulmate.Domain.Evidence.{Evidence}
use soulmate.Ingestion.Records.{IngestionWrite, IngestionResult}
use soulmate.Ingestion.Store.{IngestionStore, resolution_clash}
use soulmate.Ingestion.Transaction.{ingest}
use soulmate.Ingestion.Observations.{
  confirm_resolution_observation, set_resolution_observation_status, set_outcome_observation_status,
}
use soulmate.Ingestion.Growth.{
  resolutions_of, Grows, same, Grows-final, ingest-Grows, ingest-alone, confirm-Grows,
  first_of_decision,
}

-- A call of the repository, and the store after it
pub data Call : Type 0 where
  ingest_call : IngestionWrite → Call
  confirm_call : String → ObservationStatus → DecisionResolution → List Evidence → ℕ → Call
  resolution_status_call : String → ObservationStatus → ObservationStatus → String → Option ℕ → Call
  outcome_status_call : String → ObservationStatus → ObservationStatus → String → Option ℕ → Call

unfoldable pub after : Call → IngestionStore → IngestionStore
after (ingest_call w) s = (ingest w s).1
after (confirm_call id e r items at) s = (confirm_resolution_observation id e r items at s).1
after (resolution_status_call id e status why at) s =
    (set_resolution_observation_status id e status why at s).1
after (outcome_status_call id e status why at) s =
    (set_outcome_observation_status id e status why at s).1

unfoldable pub after_all : List Call → IngestionStore → IngestionStore
after_all [] s = s
after_all (c ∷ cs) s = after_all cs (after c s)

after-Grows : (c : Call) (s : IngestionStore) → Grows s (after c s)
unfolding after set_resolution_observation_status set_outcome_observation_status
after-Grows (ingest_call w) s = ingest-Grows w s
after-Grows (confirm_call id e r items at) s =
    let (alone, grows) = confirm-Grows id e r items at s in grows
after-Grows (resolution_status_call id e status why at) s = same refl
after-Grows (outcome_status_call id e status why at) s = same refl

pub after_all-final :
    (cs : List Call) (s : IngestionStore) (id : String)
    → resolutions_of id s ≢ []
    → resolutions_of id (after_all cs s) ≡ resolutions_of id s
unfolding after_all
after_all-final [] s id h = refl
after_all-final (c ∷ cs) s id h =
    let e = Grows-final id (after-Grows c s) h in
    after_all-final cs (after c s) id (λ k. h (sym e ∙ k)) ∙ e

-- A resolution of a decision that has one clashes with it.
pub taken :
    (r : DecisionResolution) (s : IngestionStore)
    → resolutions_of r.decision_id s ≢ []
    → any (resolution_clash r) s.resolutions ≢ false
taken r s h alone = h (first_of_decision r s.resolutions alone)

-- Once a decision has a resolution, it keeps it: after any sequence of ingested events,
-- confirmations and changes of the status of observations, the resolutions of the decision are
-- those that it had, an event that comes with a resolution of it is ingested only as a duplicate,
-- and no confirmation with a resolution of it returns true.
pub resolution_is_final :
    (cs : List Call) (s : IngestionStore) (r : DecisionResolution)
    → resolutions_of r.decision_id s ≢ []
    → (resolutions_of r.decision_id (after_all cs s) ≡ resolutions_of r.decision_id s)
      × ((w : IngestionWrite) (result : IngestionResult)
          → w.resolution ≡ some r
          → (ingest w (after_all cs s)).0 ≡ ok result
          → result.duplicate ≡ true)
      × ((id : String) (expected : ObservationStatus) (items : List Evidence) (at : ℕ)
          → (confirm_resolution_observation id expected r items at (after_all cs s)).0 ≢ ok true)
resolution_is_final cs s r h =
    let e = after_all-final cs s r.decision_id h in
    let clash = taken r (after_all cs s) (λ k. h (sym e ∙ k)) in
    (
      e,
      (λ w result has done. elim (ingest-alone w (after_all cs s) r result has done) [
        | inl duplicate ↦ duplicate
        | inr alone ↦ absurd (clash alone)
      ]),
      λ id expected items at done. clash (
          let (alone, grows) = confirm-Grows id expected r items at (after_all cs s) in
          (alone done).0),
    )
