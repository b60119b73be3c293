-- ===== src/Delegation/Tests.antt =====
-- Runs of the engine on a small store, and the theorems at concrete inputs.
use soulmate.Prelude.{
  ◌<◌, ◌≡◌, ◌≢◌, refl, ap, true, false, none, some, List, [], ◌∷◌, All, find, filter, sort_by,
  update_where,
}
use soulmate.Exec.{ok}
use soulmate.Text.{strip}
use soulmate.Float.{one_float, ninety_percent, ninety_five_percent, lt_float, le_float, in_unit}
use soulmate.Delegation.Records.{
  low, approved, completed, DelegationPolicy, policy_ok, DelegationRequest, request_ok,
}
use soulmate.Delegation.Store.{
  Store, get, get_for_action, get_by_external_request, get_decision, latest_prediction,
  latest_snapshot, add, transition, move,
}
use soulmate.Delegation.Engine.{
  list_for_owner, Submission, impact_confidence_floor, classify, usable_prediction,
  required_request, refresh_expiry, request, request_new, review, complete, complete_current,
  get_for_agent,
}
use soulmate.Delegation.Steps.{IsSafe, here}
use soulmate.Delegation.Fate.{Keeps, closed_is_final}
use soulmate.Delegation.Trace.{Trace}
use soulmate.Delegation.Policies.{after-Reach}
use soulmate.Delegation.Runs.{list_call, Call, request_call, review_call, complete_call, after}
use soulmate.Delegation.Invariant.{IsConsistent, after_all, after_all-IsConsistent}
use soulmate.Delegation.Outcomes.{refreshed}
use soulmate.Delegation.Verdicts.{reviewed, finished, review_lem, complete_lem}
use soulmate.Delegation.Once.{complete_needs_approval, complete_once}
use soulmate.Delegation.Approval.{Authorises, automatic_approval}
use soulmate.Delegation.Replay.{retried, request_replay}

abbrev policy : DelegationPolicy
policy = record {
  id = "policy_1";
  profile_id = "owner";
  service_identity_id = "service_1";
  action_type = "email.send";
  impact = low;
  minimum_confidence = ninety_five_percent;
  allow_automatic = true;
  created_at = 1;
  updated_at = 1;
}

abbrev store : Store
store = record {
  policies = policy ∷ [];
  requests = [];
  decisions = (record { id = "decision_1"; profile_id = "owner" }) ∷ [];
  predictions =
      (record {
        id = "prediction_1";
        decision_id = "decision_1";
        profile_id = "owner";
        ranking = "option_a" ∷ "option_b" ∷ [];
        confidence = one_float;
        model_snapshot_version = 3;
        created_at = 5;
      })
      ∷ [];
  snapshots =
      (record { profile_id = "owner"; version = 2 })
      ∷ (record { profile_id = "owner"; version = 3 })
      ∷ [];
}

abbrev submission : Submission
submission = record {
  profile_id = "owner";
  service_identity_id = "service_1";
  decision_id = "decision_1";
  action_type = " email.send";
  action_label = "Send it";
  external_request_id = "job-7 ";
  now = 10;
  hex = "aa";
}

abbrev made : DelegationRequest
made = record {
  id = "delegation_aa";
  profile_id = "owner";
  service_identity_id = "service_1";
  policy_id = some "policy_1";
  decision_id = "decision_1";
  prediction_id = "prediction_1";
  external_request_id = "job-7";
  action_type = "email.send";
  action_label = "Send it";
  impact = low;
  predicted_option_id = "option_a";
  prediction_confidence = one_float;
  status = approved;
  reason_code = "automatic_threshold_met";
  requested_at = 10;
  expires_at = 86400000010;
  reviewed_at = none;
  completed_at = none;
  expired_at = none;
}

abbrev store_done : Store
store_done = record store {
  requests =
      (record made { status = completed; reason_code = "agent_completed"; completed_at = some 30 })
      ∷ [];
}

abbrev store_made : Store
store_made = record store { requests = made ∷ [] }

request-made : request submission store ≡ (ok made, store_made)
unfolding request request_new get_by_external_request get_for_action usable_prediction get_decision
    latest_prediction latest_snapshot sort_by filter find classify lt_float le_float in_unit
    request_ok add strip one_float ninety_five_percent
request-made = refl

policy-IsSafe_here : IsSafe policy
unfolding policy_ok strip in_unit le_float lt_float one_float ninety_percent ninety_five_percent
    impact_confidence_floor
policy-IsSafe_here = record { valid = refl; above_floor = refl }

made-IsConsistent : IsConsistent made
unfolding request_ok strip in_unit le_float one_float
made-IsConsistent = record { valid = refl; stamps = (refl, refl, refl) }

-- The owner rejects, a completion comes after the expiry, and so on.
calls : List Call
calls =
    request_call submission
    ∷ complete_call "delegation_aa" "service_1" 86400000010
    ∷ review_call "owner" "delegation_aa" true 86400000011
    ∷ []

after_all-IsConsistent_example : All IsConsistent (after_all calls store_made).requests
after_all-IsConsistent_example = after_all-IsConsistent calls store_made (made-IsConsistent, tt)

-- The owner looks at the requests, and then the agent submits one.
abbrev looks : List Call
looks = list_call "owner" 5 ∷ []

after_looks : after_all looks store ≡ store
unfolding after_all after list_for_owner filter sort_by soulmate.Delegation.Engine.refresh_all
    soulmate.Delegation.Store.list_for_profile
after_looks = refl

new_after_looks :
    get_by_external_request "service_1" (strip "job-7 ") (after_all looks store) ≡ none
unfolding get_by_external_request find
new_after_looks = rw after_looks refl

automatic_approval_example :
    (p : DelegationPolicy) × (get_for_action "owner" "service_1"
        (strip " email.send")
        (after_all looks store)
      ≡ some p)
    × Authorises p made
automatic_approval_example =
    automatic_approval looks submission store made (policy-IsSafe_here, tt) new_after_looks
      (rw after_looks (ap (λ x. x.0) request-made)) refl

request_replay_example :
    request (retried 20 "bb" submission) (request submission store).1
    ≡ (ok made, (request submission store).1)
unfolding get_by_external_request find
request_replay_example =
    request_replay submission store made 20 "bb" refl (ap (λ x. x.0) request-made) refl

made_found : get "delegation_aa" store_made ≡ some made
unfolding get find
made_found = refl

review_lem_example :
    let out = review "owner" "delegation_aa" false 30 store_made in
    (out.0 ≡ (reviewed false 30 (refreshed 30 made)).0)
    × (get "delegation_aa" out.1 ≡ some (reviewed false 30 (refreshed 30 made)).1)
review_lem_example = review_lem "owner" "delegation_aa" false 30 store_made made made_found refl

complete_lem_example :
    let out = complete "delegation_aa" "service_1" 30 store_made in
    (out.0 ≡ (finished 30 (refreshed 30 made)).0)
    × (get "delegation_aa" out.1 ≡ some (finished 30 (refreshed 30 made)).1)
complete_lem_example = complete_lem "delegation_aa" "service_1" 30 store_made made made_found refl

abbrev done : DelegationRequest
done = record made { status = completed; reason_code = "agent_completed"; completed_at = some 30 }

complete-done : (complete "delegation_aa" "service_1" 30 store_made).0 ≡ ok done
unfolding complete complete_current get_for_agent required_request get find refresh_expiry
    transition update_where move
complete-done = refl

complete_needs_approval_example :
    (x : DelegationRequest) × (get "delegation_aa" store_made ≡ some x)
    × (x.service_identity_id ≡ "service_1")
    × (x.status ≡ approved)
    × (30 < x.expires_at)
    × (get "delegation_aa" (complete "delegation_aa" "service_1" 30 store_made).1
        ≡ some (move completed "agent_completed" 30 x))
complete_needs_approval_example =
    complete_needs_approval "delegation_aa" "service_1" 30 store_made done complete-done

complete_once_example :
    (complete "delegation_aa" "service_1" 40
      (complete "delegation_aa" "service_1" 30 store_made).1).0
    ≢ ok done
complete_once_example =
    complete_once "delegation_aa" "service_1" "service_1" 30 40 store_made
      (complete "delegation_aa" "service_1" 30 store_made).1 done done complete-done here

closed_is_final_example :
    Keeps "delegation_aa" done (after (review_call "owner" "delegation_aa" false 50) store_done)
unfolding get find
closed_is_final_example =
    closed_is_final "delegation_aa" done
      (after-Reach (review_call "owner" "delegation_aa" false 50) store_done) refl refl
