-- ===== src/Delegation/Submit.antt =====
-- What a successful first submission has checked and stored.
use soulmate.Prelude.{
  String, ◌≡◌, refl, sym, ap, subst, ◌∙◌, true, false, none, some, any, inl, inr, Bool-cases,
  Option-cases,
}
use soulmate.Exec.{ok, err, Result-cases, ok_inj, ok-ne-err}
use soulmate.Text.{strip}
use soulmate.Delegation.Records.{
  DelegationPolicy, DelegationRequest, request_ok, DecisionPrediction,
}
use soulmate.Delegation.Store.{
  Store, Error, add, get_for_action, request_conflict, action_not_approved, value_error,
  get_by_external_request, integrity_error,
}
use soulmate.Delegation.Engine.{
  Submission, drafted_request, request_new, request, usable_prediction, ranked_first,
}
use soulmate.Delegation.Steps.{insert}

-- The request that a successful first submission returns is the one that it stores.
pub record Submitted (c : Submission) (s : Store) (r : DelegationRequest) : Type 0 where
  pub policy : DelegationPolicy
  pub prediction : DecisionPrediction
  pub option_id : String
  pub found_policy :
      get_for_action c.profile_id c.service_identity_id (strip c.action_type) s ≡ some policy
  pub found_prediction : usable_prediction c.profile_id c.decision_id s ≡ ok prediction
  pub drafted : r ≡ drafted_request c policy prediction option_id
  pub valid : request_ok r ≡ true
  pub fresh : any (request_conflict r) s.requests ≡ false
  pub stored : request_new c s ≡ (ok r, insert r s)

module _ (c : Submission) (s : Store) (p : DelegationPolicy) (q : DecisionPrediction) (o : String)
    (found : get_for_action c.profile_id c.service_identity_id (strip c.action_type) s ≡ some p)
    (usable : usable_prediction c.profile_id c.decision_id s ≡ ok q)
    (ranked : ranked_first q.ranking ≡ ok o) where
  abbrev draft : DelegationRequest
  draft = drafted_request c p q o

  request_new_stores :
      request_ok draft ≡ true
      → any (request_conflict draft) s.requests ≡ false
      → request_new c s ≡ (ok draft, insert draft s)
  unfolding request_new add
  request_new_stores valid fresh = rw (found, usable, ranked, valid, fresh)

  request_new_clash :
      request_ok draft ≡ true
      → any (request_conflict draft) s.requests ≡ true
      → request_new c s ≡ (err integrity_error, s)
  unfolding request_new add
  request_new_clash valid clash = rw (found, usable, ranked, valid, clash)

  request_new_invalid : request_ok draft ≡ false → request_new c s ≡ (err value_error, s)
  unfolding request_new
  request_new_invalid invalid = rw (found, usable, ranked, invalid)

  drafted-Submitted : (r : DelegationRequest) → (request_new c s).0 ≡ ok r → Submitted c s r
  drafted-Submitted r h = elim (Bool-cases (request_ok draft)) [
    | inr invalid ↦ absurd (ok-ne-err (sym h ∙ ap (λ x. x.0) (request_new_invalid invalid)))
    | inl valid ↦ elim (Bool-cases (any (request_conflict draft) s.requests)) [
      | inl clash ↦ absurd (ok-ne-err (sym h ∙ ap (λ x. x.0) (request_new_clash valid clash)))
      | inr fresh ↦
          let stores = request_new_stores valid fresh in
          let same : draft ≡ r = ok_inj (ap (λ x. x.0) (sym stores) ∙ h) in
          subst (Submitted c s) same (record {
            policy = p;
            prediction = q;
            option_id = o;
            found_policy = found;
            found_prediction = usable;
            drafted = refl;
            valid = valid;
            fresh = fresh;
            stored = stores;
          })
    ]
  ]

request_new_no_policy :
    (c : Submission) (s : Store)
    → get_for_action c.profile_id c.service_identity_id (strip c.action_type) s ≡ none
    → request_new c s ≡ (err action_not_approved, s)
unfolding request_new
request_new_no_policy c s absent = rw absent

request_new_no_prediction :
    (c : Submission) (s : Store) (p : DelegationPolicy) (e : Error)
    → get_for_action c.profile_id c.service_identity_id (strip c.action_type) s ≡ some p
    → usable_prediction c.profile_id c.decision_id s ≡ err e
    → request_new c s ≡ (err e, s)
unfolding request_new
request_new_no_prediction c s p e found unusable = rw (found, unusable)

request_new_no_option :
    (c : Submission) (s : Store) (p : DelegationPolicy) (q : DecisionPrediction) (e : Error)
    → get_for_action c.profile_id c.service_identity_id (strip c.action_type) s ≡ some p
    → usable_prediction c.profile_id c.decision_id s ≡ ok q
    → ranked_first q.ranking ≡ err e
    → request_new c s ≡ (err e, s)
unfolding request_new
request_new_no_option c s p q e found usable unranked = rw (found, usable, unranked)

pub request_new-Submitted :
    (c : Submission) (s : Store) (r : DelegationRequest)
    → (request_new c s).0 ≡ ok r
    → Submitted c s r
request_new-Submitted c s r h =
    elim (Option-cases
      (get_for_action c.profile_id c.service_identity_id (strip c.action_type) s)) [
        | inl absent ↦ absurd (ok-ne-err (sym h ∙ ap (λ x. x.0) (request_new_no_policy c s absent)))
        | inr (p, found) ↦ elim (Result-cases (usable_prediction c.profile_id c.decision_id s)) [
          | inl (e, unusable) ↦
              absurd (
                ok-ne-err
                  (sym h ∙ ap (λ x. x.0) (request_new_no_prediction c s p e found unusable)))
          | inr (q, usable) ↦ elim (Result-cases (ranked_first q.ranking)) [
            | inl (e, unranked) ↦ absurd (
                ok-ne-err
                  (sym h ∙ ap (λ x. x.0) (request_new_no_option c s p q e found usable unranked)))
            | inr (o, ranked) ↦ drafted-Submitted c s p q o found usable ranked r h
          ]
        ]
      ]

-- An external id that is not stored yet makes a new request.
pub request_first :
    (c : Submission) (s : Store)
    → get_by_external_request c.service_identity_id (strip c.external_request_id) s ≡ none
    → request c s ≡ request_new c s
unfolding request
request_first c s fresh = rw fresh
