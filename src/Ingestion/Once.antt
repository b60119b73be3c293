-- ===== src/Ingestion/Once.antt =====
-- The owner's confirmation of a reported choice is applied at most once.
use soulmate.Prelude.{
  ℕ, String, ◌≡◌, ◌≢◌, refl, sym, ap, ◌∙◌, Bool, true, false, none, some, List, [], ◌∷◌, inl, inr,
  filter,
}
use soulmate.Exec.{Result, ok, err, Result-cases, ok_inj, ok-ne-err}
use soulmate.Domain.Decisions.{DecisionResolution}
use soulmate.Ingestion.Store.{IngestionStore, StoreError}
use soulmate.Ingestion.Observations.{get_resolution_observation, confirm_resolution_observation}
use soulmate.Ingestion.Reports.{Ids, PromotedResolution}
use soulmate.DecisionIo.Provenance.{pending}
use soulmate.Ingestion.Confirming.{confirm_read, confirmed_result, confirm_resolution}
use soulmate.Ingestion.Growth.{of_decision, resolutions_of, Added, confirm-Grows, only_of_decision}
use soulmate.Ingestion.Final.{Call, after_all, after_all-final, taken}

-- What a confirmation returns of the resolution that it stores
abbrev pub reported : DecisionResolution → PromotedResolution
reported r = record { decision_id = r.decision_id; chosen_option_id = r.chosen_option_id }

confirmed_result-ok :
    {done : PromotedResolution} (r : DecisionResolution)
    (c : Result StoreError Bool × IngestionStore)
    → (confirmed_result r c).0 ≡ ok done
    → (c.0 ≡ ok true) × (reported r ≡ done) × ((confirmed_result r c).1 ≡ c.1)
confirmed_result-ok r (err e, s) h = absurd (ok-ne-err (sym h))
confirmed_result-ok r (ok false, s) h = absurd (ok-ne-err (sym h))
confirmed_result-ok r (ok true, s) h = (refl, ok_inj h, refl)

-- The resolution that a confirmation has stored
confirm_resolution-Added :
    (ids : Ids) (profile_id observation_id : String) (now : ℕ) (s : IngestionStore)
    (done : PromotedResolution)
    → (confirm_resolution ids profile_id observation_id now s).0 ≡ ok done
    → (r : DecisionResolution) × (reported r ≡ done)
      × Added r s (confirm_resolution ids profile_id observation_id now s).1
unfolding confirm_resolution
confirm_resolution-Added ids profile_id observation_id now s done h =
    elim (Result-cases (
      confirm_read ids profile_id now (get_resolution_observation profile_id observation_id s) s)) [
        | inl (x, bad) ↦ absurd (ok-ne-err (sym (rw bad at h)))
        | inr ((o, none), read) ↦ absurd (ok-ne-err (sym (rw read at h)))
        | inr ((o, some (r, items)), read) ↦
            let (stored, same, left) =
              confirmed_result-ok r (confirm_resolution_observation o.id pending r items now s)
                (rw read at h) in
            let (new, grows) = confirm-Grows o.id pending r items now s in
            let (alone, put) = new stored in
            (r, same, (alone, rw read (ap (λ (x : IngestionStore). x.resolutions) left ∙ put)))
      ]

-- What one confirmation leaves, whatever calls follow it
pub record Settled (done : PromotedResolution) (s : IngestionStore) : Type 0 where
  pub resolution : DecisionResolution
  pub result : reported resolution ≡ done
  pub only : resolutions_of done.decision_id s ≡ resolution ∷ []

confirm_resolution-Settled :
    (cs : List Call) (ids : Ids) (profile_id observation_id : String) (now : ℕ) (s : IngestionStore)
    (done : PromotedResolution)
    → (confirm_resolution ids profile_id observation_id now s).0 ≡ ok done
    → Settled done (after_all cs (confirm_resolution ids profile_id observation_id now s).1)
confirm_resolution-Settled cs ids profile_id observation_id now s done h =
    let (r, same, (alone, put)) =
      confirm_resolution-Added ids profile_id observation_id now s done h in
    let s1 = (confirm_resolution ids profile_id observation_id now s).1 in
    let one : resolutions_of r.decision_id s1 ≡ r ∷ [] =
      ap (filter (of_decision r.decision_id)) put ∙ only_of_decision r s.resolutions alone in
    record {
      resolution = r;
      result = same;
      only =
          ap (λ (p : PromotedResolution). resolutions_of p.decision_id (after_all cs s1)) (sym same)
          ∙ after_all-final cs s1 r.decision_id (λ e. cc)
          ∙ one;
    }

-- After the owner has confirmed a reported choice, and after any sequence of ingested events,
-- confirmations and changes of the status of observations, the decision has exactly one resolution,
-- which has the option that the confirmation returned, and no confirmation of a choice for that
-- decision returns a result.
pub confirm_once :
    (cs : List Call) (ids : Ids) (profile_id observation_id : String) (now : ℕ) (s : IngestionStore)
    (done : PromotedResolution)
    → (confirm_resolution ids profile_id observation_id now s).0 ≡ ok done
    → let later = after_all cs (confirm_resolution ids profile_id observation_id now s).1 in
      Settled done later
      × ((ids' : Ids) (profile' observation' : String) (now' : ℕ) (again : PromotedResolution)
          → again.decision_id ≡ done.decision_id
          → (confirm_resolution ids' profile' observation' now' later).0 ≢ ok again)
confirm_once cs ids profile_id observation_id now s done h =
    let settled = confirm_resolution-Settled cs ids profile_id observation_id now s done h in
    let later = after_all cs (confirm_resolution ids profile_id observation_id now s).1 in
    (
      settled,
      λ ids' profile' observation' now' again same h'.
          let (r, back, (alone, put)) =
            confirm_resolution-Added ids' profile' observation' now' later again h' in
          let of : r.decision_id ≡ done.decision_id =
            ap (λ (p : PromotedResolution). p.decision_id) back ∙ same in
          taken r later
            (λ e.
              let one = settled.only in
              let none_left : resolutions_of done.decision_id later ≡ [] =
                ap (λ x. resolutions_of x later) (sym of) ∙ e in
              cc)
            alone,
    )
