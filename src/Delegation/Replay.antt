-- ===== src/Delegation/Replay.antt =====
-- Retried submissions, and policies that are read back.
use soulmate.Prelude.{
  ℕ, String, ◌≡◌, sym, ap, ◌∙◌, true, none, some, [], ◌∷◌, arith, ◌==◌, eq_iff, find, find_test,
  find-append_none, ltb,
}
use soulmate.Exec.{ok}
use soulmate.Text.{strip}
use soulmate.Delegation.Records.{DelegationPolicy, DelegationRequest}
use soulmate.Delegation.Store.{Store, get_for_action, for_action, get_by_external_request}
use soulmate.Delegation.Engine.{Submission, request_again, request, refresh_expiry, is_open}
use soulmate.Delegation.Steps.{insert}
use soulmate.Delegation.Submit.{request_first, request_new-Submitted}
use soulmate.Delegation.Runs.{classify-is_open}

-- The same submission, made again at another time.
abbrev pub retried : ℕ → String → Submission → Submission
retried now hex c = record c { now = now; hex = hex }

external-insert :
    (svc ext : String) (r : DelegationRequest) (s : Store)
    → get_by_external_request svc ext s ≡ none
    → r.service_identity_id ≡ svc
    → r.external_request_id ≡ ext
    → get_by_external_request svc ext (insert r s) ≡ some r
unfolding get_by_external_request find
external-insert svc ext r s absent a b =
    find-append_none _ s.requests (r ∷ []) absent
    ∙ rw ((eq_iff r.service_identity_id svc).1 a, (eq_iff r.external_request_id ext).1 b)

policy_action :
    (a b c : String) (s : Store) (p : DelegationPolicy)
    → get_for_action a b c s ≡ some p
    → p.action_type ≡ c
unfolding get_for_action
policy_action a b c s p found =
    (eq_iff p.action_type c).0 (last_test a b c p (find_test (for_action a b c) s.policies found))
  where
    last_test :
        (a b c : String) (p : DelegationPolicy)
        → for_action a b c p ≡ true
        → (p.action_type == c) ≡ true
    last_test a b c p h = ground arith

refresh_early :
    (r : DelegationRequest) (now : ℕ) (s : Store)
    → is_open r.status ≡ true
    → ltb now r.expires_at ≡ true
    → refresh_expiry r now s ≡ (ok r, s)
unfolding refresh_expiry
refresh_early r now s live early = rw (live, early)

again_same :
    (c : Submission) (r : DelegationRequest) (s : Store)
    → r.decision_id ≡ c.decision_id
    → r.action_type ≡ strip c.action_type
    → r.action_label ≡ strip c.action_label
    → request_again c r s ≡ refresh_expiry r c.now s
unfolding request_again
again_same c r s a b d = rw (
  (eq_iff r.decision_id c.decision_id).1 a,
  (eq_iff r.action_type (strip c.action_type)).1 b,
  (eq_iff r.action_label (strip c.action_label)).1 d,
)

request_found :
    (c : Submission) (s : Store) (r : DelegationRequest)
    → get_by_external_request c.service_identity_id (strip c.external_request_id) s ≡ some r
    → request c s ≡ request_again c r s
unfolding request
request_found c s r found = rw found

-- If a submission with a new external id has returned a request, the same submission, retried
-- before the request expires, returns that request and leaves the store unchanged.
pub request_replay :
    (c : Submission) (s : Store) (r : DelegationRequest) (now : ℕ) (hex : String)
    → get_by_external_request c.service_identity_id (strip c.external_request_id) s ≡ none
    → (request c s).0 ≡ ok r
    → ltb now r.expires_at ≡ true
    → request (retried now hex c) (request c s).1 ≡ (ok r, (request c s).1)
request_replay c s r now hex fresh done early =
    let first = request_first c s fresh in
    let sub = request_new-Submitted c s r (ap (λ x. x.0) (sym first) ∙ done) in
    rw (first ∙ sub.stored) (
      request_found (retried now hex c) (insert r s) r (
        external-insert c.service_identity_id (strip c.external_request_id) r s fresh
          (ap (λ x. x.service_identity_id) sub.drafted)
          (ap (λ x. x.external_request_id) sub.drafted))
      ∙ again_same (retried now hex c) r (insert r s) (ap (λ x. x.decision_id) sub.drafted)
          (ap (λ x. x.action_type) sub.drafted
            ∙ policy_action c.profile_id c.service_identity_id (strip c.action_type) s sub.policy
                sub.found_policy)
          (ap (λ x. x.action_label) sub.drafted)
      ∙ refresh_early r now (insert r s)
          (ap (λ x. is_open x.status) sub.drafted
            ∙ classify-is_open sub.policy sub.prediction.confidence)
          early)
