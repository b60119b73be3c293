-- ===== src/Delegation/Runs.antt =====
-- Every method of the engine is a sequence of the atomic steps, whatever it returns.
use soulmate.Prelude.{
  ℕ, String, ◌≡◌, refl, subst, Bool, true, false, not, Option, none, some, List, [], ◌∷◌, arith,
  any, inl, inr, Bool-cases, ltb, ◌==◌,
}
use soulmate.Float.{Float, lt_float}
use soulmate.Text.{strip}
use soulmate.Delegation.Records.{
  DecisionImpact, DelegationPolicy, policy_ok, DelegationRequest, request_ok, DecisionPrediction,
  DelegationStatus, pending, approved, rejected, completed, expired, eq_status,
  requires_confirmation,
}
use soulmate.Delegation.Store.{
  Store, add, upsert, transition, remove, get, request_conflict, invalid_policy, policy_not_found,
  get_for_action, get_by_external_request,
}
use soulmate.Delegation.Engine.{
  is_open, is_reviewable, verdict, verdict_reason, classify, refresh_expiry, required_request,
  required_owned_request, Submission, drafted_request, request_new, request_again, request,
  get_for_agent, refresh_all, list_for_owner, review, review_current, complete, complete_current,
  remove_policy, set_policy, ranked_first, impact_confidence_floor, usable_prediction, request_by,
}
use soulmate.Delegation.Steps.{
  Allowed, approve, reject_pending, reject_approved, finish, expire_pending, expire_approved,
  IsSafe, IsNew,
}
use soulmate.Delegation.Trace.{
  reason_of, submitted, changed, unlinked, upserted, Trace, start, only_step,
}
use soulmate.Delegation.Rules.{
  Runs, Runs-bind, Runs-guard, Runs-if, Runs-lift, Runs-need, Runs-option, Runs-raise_if,
}

Allowed-expiry : (e : DelegationStatus) → is_open e ≡ true → Allowed e expired
Allowed-expiry pending h = expire_pending
Allowed-expiry approved h = expire_approved
Allowed-expiry rejected h = cc
Allowed-expiry completed h = cc
Allowed-expiry expired h = cc

Allowed-verdict :
    (b : Bool) (e : DelegationStatus) → is_reviewable b e ≡ true → Allowed e (verdict b)
Allowed-verdict true pending h = approve
Allowed-verdict true approved h = cc
Allowed-verdict true rejected h = cc
Allowed-verdict true completed h = cc
Allowed-verdict true expired h = cc
Allowed-verdict false pending h = reject_pending
Allowed-verdict false approved h = reject_approved
Allowed-verdict false rejected h = cc
Allowed-verdict false completed h = cc
Allowed-verdict false expired h = cc

Runs-transition :
    (id : String) {e st : DelegationStatus} (t : ℕ)
    → Allowed e st
    → Runs (transition id e st (reason_of st) t)
Runs-transition id t a s = only_step (changed s id a t)

verdict_reason_lem : (b : Bool) → reason_of (verdict b) ≡ verdict_reason b
verdict_reason_lem true = refl
verdict_reason_lem false = refl

Runs-required : (id : String) → Runs (required_request id)
unfolding required_request
Runs-required id s = Runs-option (get id s) _ s

true_of_not : (b : Bool) → not b ≡ false → b ≡ true
true_of_not b h = ground arith

Runs-refresh_expiry : (r : DelegationRequest) (now : ℕ) → Runs (refresh_expiry r now)
unfolding refresh_expiry
Runs-refresh_expiry r now =
    Runs-if (not (is_open r.status)) _ _ (λ h s. start)
      λ h.
        Runs-if (ltb now r.expires_at) _ _ (λ k s. start)
          λ k.
            Runs-bind (transition r.id r.status expired "request_expired" now) _
              (Runs-transition r.id now (Allowed-expiry r.status (true_of_not _ h)))
              λ moved. Runs-if moved _ _ (λ m s. start) (λ m. Runs-required r.id)

Runs-required_owned : (profile_id id : String) → Runs (required_owned_request profile_id id)
unfolding required_owned_request
Runs-required_owned profile_id id =
    Runs-bind (required_request id) _ (Runs-required id)
      λ r. Runs-guard (not (r.profile_id == profile_id)) _ _ (λ h s. start)

Runs-get_for_agent : (id svc : String) (now : ℕ) → Runs (get_for_agent id svc now)
unfolding get_for_agent
Runs-get_for_agent id svc now =
    Runs-bind (required_request id) _ (Runs-required id)
      λ r. Runs-guard (not (r.service_identity_id == svc)) _ _ (λ h. Runs-refresh_expiry r now)

Runs-refresh_all : (rs : List DelegationRequest) (now : ℕ) → Runs (refresh_all rs now)
unfolding refresh_all
Runs-refresh_all [] now = λ s. start
Runs-refresh_all (r ∷ rs) now =
    Runs-bind (refresh_expiry r now) _ (Runs-refresh_expiry r now)
      λ fresh. Runs-bind (refresh_all rs now) _ (Runs-refresh_all rs now) λ rest s. start

Runs-list_for_owner : (profile_id : String) (now : ℕ) → Runs (list_for_owner profile_id now)
unfolding list_for_owner
Runs-list_for_owner profile_id now s = Runs-refresh_all _ now s

Runs-review :
    (profile_id id : String) (approval : Bool) (now : ℕ) → Runs (review profile_id id approval now)
unfolding review review_current
Runs-review profile_id id approval now =
    Runs-bind (required_owned_request profile_id id) _ (Runs-required_owned profile_id id) λ owned.
      Runs-bind (refresh_expiry owned now) _ (Runs-refresh_expiry owned now) λ r.
        Runs-guard (not (is_reviewable approval r.status)) _ _ λ h.
          Runs-bind (transition r.id r.status (verdict approval) _ now) _
            (subst (λ why. Runs (transition r.id r.status (verdict approval) why now))
              (verdict_reason_lem approval)
              (Runs-transition r.id now (Allowed-verdict approval r.status (true_of_not _ h))))
            λ moved. Runs-guard (not moved) _ _ (λ m s. start)

Runs-complete : (id svc : String) (now : ℕ) → Runs (complete id svc now)
unfolding complete complete_current
Runs-complete id svc now =
    Runs-bind (get_for_agent id svc now) _ (Runs-get_for_agent id svc now) λ r.
      Runs-guard (not (eq_status r.status approved)) _ _ λ h.
        Runs-bind (transition r.id approved completed "agent_completed" now) _
          (Runs-transition r.id now finish) λ moved. Runs-guard (not moved) _ _ (λ m s. start)

Runs-remove_policy : (profile_id policy_id : String) → Runs (remove_policy profile_id policy_id)
unfolding remove_policy
Runs-remove_policy profile_id policy_id =
    Runs-bind (remove profile_id policy_id) _ (λ s. only_step (unlinked s profile_id policy_id))
      λ removed. Runs-raise_if (not removed) policy_not_found

Runs-upsert : (p : DelegationPolicy) → IsSafe p → Runs (upsert p)
Runs-upsert p safe s = only_step (upserted s p safe)

Runs-set_policy :
    (profile_id svc action : String) (impact : DecisionImpact) (m : Float) (auto : Bool) (now : ℕ)
    (hex : String)
    → Runs (set_policy profile_id svc action impact m auto now hex)
unfolding set_policy
Runs-set_policy profile_id svc action impact m auto now hex =
    Runs-guard (lt_float m (impact_confidence_floor impact)) _ _ λ h s.
      Runs-guard (not (policy_ok _)) invalid_policy _
        (λ k. Runs-upsert _ (record { valid = true_of_not _ k; above_floor = h })) s

pub classify-is_open : (p : DelegationPolicy) (c : Float) → is_open (classify p c).0 ≡ true
unfolding classify
classify-is_open p c = ground arith

-- The policy approves for another reason than the owner does.
classify_reason :
    (p : DelegationPolicy) (c : Float) → ((classify p c).1 == "owner_approved") ≡ false
unfolding classify
classify_reason p c = elim (Bool-cases (requires_confirmation p.impact)) [
  | inl grave ↦ rw grave refl
  | inr mild ↦ elim (Bool-cases p.allow_automatic) [
    | inr manual ↦ rw (mild, manual) refl
    | inl auto ↦ elim (Bool-cases (lt_float c p.minimum_confidence)) [
      | inl low_ ↦ rw (mild, auto, low_) refl
      | inr enough ↦ rw (mild, auto, enough) refl
    ]
  ]
]

drafted-IsNew :
    (c : Submission) (p : DelegationPolicy) (q : DecisionPrediction) (o : String)
    → request_ok (drafted_request c p q o) ≡ true
    → IsNew (drafted_request c p q o)
drafted-IsNew c p q o h = record {
  valid = h;
  undecided = classify-is_open p q.confidence;
  unreviewed = refl;
  uncompleted = refl;
  unexpired = refl;
}

Runs-add :
    (r : DelegationRequest) → IsNew r → (r.reason_code == "owner_approved") ≡ false → Runs (add r)
unfolding add
Runs-add r new automatic s = elim (Bool-cases (any (request_conflict r) s.requests)) [
  | inl e ↦ rw e start
  | inr e ↦ rw e (only_step (submitted s r e new automatic))
]

Runs-request_new : (c : Submission) → Runs (request_new c)
unfolding request_new
Runs-request_new c s =
    Runs-need (get_for_action c.profile_id c.service_identity_id (strip c.action_type) s) _ _
      (λ p t.
        Runs-lift (usable_prediction c.profile_id c.decision_id t) _
          (λ q. Runs-lift (ranked_first q.ranking) _ (λ o.
            Runs-guard (not (request_ok (drafted_request c p q o))) _ _ (λ h.
              Runs-bind (add (drafted_request c p q o)) _
                (Runs-add _ (drafted-IsNew c p q o (true_of_not _ h))
                  (classify_reason p q.confidence))
                (λ u t. start))))
          t)
      s

Runs-request_again : (c : Submission) (r : DelegationRequest) → Runs (request_again c r)
unfolding request_again
Runs-request_again c r = Runs-if _ _ _ (λ h s. start) (λ h. Runs-refresh_expiry r c.now)

Runs-request : (c : Submission) → Runs (request c)
unfolding request
Runs-request c s =
    by_existing (get_by_external_request c.service_identity_id (strip c.external_request_id) s)
  where
    by_existing : (o : Option DelegationRequest) → Trace s (request_by c o s).1
    by_existing none = Runs-request_new c s
    by_existing (some r) = Runs-request_again c r s

-- The calls that clients make.
pub data Call : Type 0 where
  set_policy_call : String → String → String → DecisionImpact → Float → Bool → ℕ → String → Call
  request_call : Submission → Call
  get_call : String → String → ℕ → Call
  list_call : String → ℕ → Call
  review_call : String → String → Bool → ℕ → Call
  complete_call : String → String → ℕ → Call
  remove_policy_call : String → String → Call

-- The store that a call leaves behind, whether it returns or raises.
unfoldable pub after : Call → Store → Store
after (set_policy_call p v a i m auto now hex) s = (set_policy p v a i m auto now hex s).1
after (request_call c) s = (request c s).1
after (get_call id v now) s = (get_for_agent id v now s).1
after (list_call p now) s = (list_for_owner p now s).1
after (review_call p id b now) s = (review p id b now s).1
after (complete_call id v now) s = (complete id v now s).1
after (remove_policy_call p id) s = (remove_policy p id s).1

-- Each call takes steps of the closed list only.
pub after-Trace : (c : Call) (s : Store) → Trace s (after c s)
unfolding after
after-Trace (set_policy_call p v a i m auto now hex) s = Runs-set_policy p v a i m auto now hex s
after-Trace (request_call c) s = Runs-request c s
after-Trace (get_call id v now) s = Runs-get_for_agent id v now s
after-Trace (list_call p now) s = Runs-list_for_owner p now s
after-Trace (review_call p id b now) s = Runs-review p id b now s
after-Trace (complete_call id v now) s = Runs-complete id v now s
after-Trace (remove_policy_call p id) s = Runs-remove_policy p id s
