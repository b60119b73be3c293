-- ===== src/Delegation/Approval.antt =====
-- When the engine approves without asking the owner.
use soulmate.Prelude.{
  ℕ, String, ◌≡◌, refl, sym, ap, ◌∙◌, true, false, none, some, List, [], ◌∷◌, arith, inl, inr,
  Bool-cases, All, find-All, any, All-delete_where,
}
use soulmate.Exec.{ok}
use soulmate.Text.{strip}
use soulmate.Float.{
  Float, lt_float, le_float, in_unit, one_float, ninety_percent, ninety_five_percent, le_of_not_lt,
  le_float_trans, in_unit-le_refl,
}
use soulmate.Delegation.Records.{
  DecisionImpact, low, medium, high, safety_critical, DelegationStatus, approved,
  requires_confirmation, DelegationPolicy, DelegationRequest, request_ok,
}
use soulmate.Delegation.Store.{
  Store, get_for_action, for_action, get_by_external_request, remove, owned_policy, transition,
}
use soulmate.Delegation.Engine.{
  impact_confidence_floor, classify, Submission, drafted_request, request,
}
use soulmate.Delegation.Steps.{
  IsSafe, Step, submit, change, unlink, write_policies, other, Reach, here, next,
}
use soulmate.Delegation.Runs.{Call, after}
use soulmate.Delegation.Policies.{after-Reach, policy_parts}
use soulmate.Delegation.Invariant.{after_all}
use soulmate.Delegation.Submit.{Submitted, request_first, request_new-Submitted}

floor-le_refl :
    (i : DecisionImpact) → le_float (impact_confidence_floor i) (impact_confidence_floor i) ≡ true
unfolding le_float impact_confidence_floor one_float ninety_percent ninety_five_percent
floor-le_refl low = refl
floor-le_refl medium = refl
floor-le_refl high = refl
floor-le_refl safety_critical = refl

classify-approved :
    (p : DelegationPolicy) (c : Float)
    → (classify p c).0 ≡ approved
    → (requires_confirmation p.impact ≡ false)
      × (p.allow_automatic ≡ true)
      × (lt_float c p.minimum_confidence ≡ false)
unfolding classify
classify-approved p c h = ground arith

request_ok-confidence :
    (r : DelegationRequest) → request_ok r ≡ true → in_unit r.prediction_confidence ≡ true
unfolding request_ok
request_ok-confidence r h = ground arith

-- A safe policy passes its floor on to what it approves.
safe_floor :
    (p : DelegationPolicy) (c : Float)
    → IsSafe p
    → in_unit c ≡ true
    → lt_float c p.minimum_confidence ≡ false
    → le_float (impact_confidence_floor p.impact) c ≡ true
safe_floor p c safe unit enough =
    let (named, bounded, owner) = policy_parts p safe.valid in
    let above =
      le_of_not_lt p.minimum_confidence (impact_confidence_floor p.impact) safe.above_floor bounded
        (floor-le_refl p.impact) in
    let reached =
      le_of_not_lt c p.minimum_confidence enough unit
        (in_unit-le_refl p.minimum_confidence bounded) in
    le_float_trans (impact_confidence_floor p.impact) p.minimum_confidence c above reached

-- What a policy must say for the approval of `r`.
pub record Authorises (p : DelegationPolicy) (r : DelegationRequest) : Type 0 where
  pub automatic : p.allow_automatic ≡ true
  pub harmless : requires_confirmation r.impact ≡ false
  pub certain : le_float (impact_confidence_floor r.impact) r.prediction_confidence ≡ true

drafted-Authorises :
    (c : Submission) (s : Store) (r : DelegationRequest) (sub : Submitted c s r)
    → IsSafe sub.policy
    → r.status ≡ approved
    → Authorises sub.policy r
drafted-Authorises c s r sub safe status =
    let d = drafted_request c sub.policy sub.prediction sub.option_id in
    let (mild, auto, enough) =
      classify-approved sub.policy sub.prediction.confidence
        (ap (λ x. x.status) (sym sub.drafted) ∙ status) in
    record {
      automatic = auto;
      harmless = rw sub.drafted mild;
      certain = rw sub.drafted (
          safe_floor sub.policy sub.prediction.confidence safe
            (request_ok-confidence d (ap request_ok (sym sub.drafted) ∙ sub.valid)) enough);
    }

policy-IsSafe :
    (a b c : String) (s : Store) (p : DelegationPolicy)
    → All IsSafe s.policies
    → get_for_action a b c s ≡ some p
    → IsSafe p
unfolding get_for_action
policy-IsSafe a b c s p safe found = find-All IsSafe (for_action a b c) s.policies safe found

-- An approval at once, where the stored policies are safe.
approval_by_policy :
    (c : Submission) (s : Store) (r : DelegationRequest)
    → All IsSafe s.policies
    → get_by_external_request c.service_identity_id (strip c.external_request_id) s ≡ none
    → (request c s).0 ≡ ok r
    → r.status ≡ approved
    → (p : DelegationPolicy) × (get_for_action c.profile_id c.service_identity_id
          (strip c.action_type)
          s
        ≡ some p)
      × Authorises p r
approval_by_policy c s r safe fresh done status =
    let sub = request_new-Submitted c s r (ap (λ x. x.0) (sym (request_first c s fresh)) ∙ done) in
    (
      sub.policy,
      sub.found_policy,
      drafted-Authorises c s r sub
          (policy-IsSafe c.profile_id c.service_identity_id (strip c.action_type) s sub.policy safe
            sub.found_policy)
          status,
    )

unlink-IsSafe :
    (profile_id policy_id : String) (s : Store)
    → All IsSafe s.policies
    → All IsSafe (remove profile_id policy_id s).1.policies
unfolding remove
unlink-IsSafe profile_id policy_id s h =
    elim (Bool-cases (any (owned_policy profile_id policy_id) s.policies)) [
      | inr absent ↦ rw absent h
      | inl present ↦
          rw present (All-delete_where IsSafe (owned_policy profile_id policy_id) s.policies h)
    ]

transition-policies :
    (id : String) (e st : DelegationStatus) (why : String) (t : ℕ) (s : Store)
    → All IsSafe s.policies
    → All IsSafe (transition id e st why t s).1.policies
unfolding transition
transition-policies id e st why t s h = h

Step-IsSafe : {s t : Store} → Step s t → All IsSafe s.policies → All IsSafe t.policies
Step-IsSafe (submit s r fresh new) h = h
Step-IsSafe (change s id {e} {st} a why t) h = transition-policies id e st why t s h
Step-IsSafe (unlink s profile_id policy_id) h = unlink-IsSafe profile_id policy_id s h
Step-IsSafe (write_policies s ps safe) h = safe h
Step-IsSafe (other s t e f) h = rw f h

Reach-IsSafe : {s t : Store} → Reach s t → All IsSafe s.policies → All IsSafe t.policies
Reach-IsSafe here h = h
Reach-IsSafe (next r st) h = Step-IsSafe st (Reach-IsSafe r h)

-- If every stored policy is safe, that is, accepted by its constructor and not below the confidence
-- floor of its impact, then every policy is safe after any sequence of calls of the engine.
after_all-IsSafe :
    (cs : List Call) (s : Store) → All IsSafe s.policies → All IsSafe (after_all cs s).policies
unfolding after_all
after_all-IsSafe [] s h = h
after_all-IsSafe (c ∷ cs) s h = after_all-IsSafe cs (after c s) (Reach-IsSafe (after-Reach c s) h)

-- Let every policy of a store be safe, that is, valid and not below the confidence floor of its
-- impact. If, after any sequence of calls of the engine, a submission with a new external id
-- returns a request that is already approved, then the policy stored for its profile, agent and
-- action allows automatic approval, the impact is not one that needs the owner, and the confidence
-- of the prediction is at least the confidence floor of the impact.
pub automatic_approval :
    (cs : List Call) (c : Submission) (s : Store) (r : DelegationRequest)
    → All IsSafe s.policies
    → get_by_external_request c.service_identity_id (strip c.external_request_id) (after_all cs s)
      ≡ none
    → (request c (after_all cs s)).0 ≡ ok r
    → r.status ≡ approved
    → (p : DelegationPolicy) × (get_for_action c.profile_id c.service_identity_id
          (strip c.action_type)
          (after_all cs s)
        ≡ some p)
      × Authorises p r
automatic_approval cs c s r safe fresh done status =
    approval_by_policy c (after_all cs s) r (after_all-IsSafe cs s safe) fresh done status
