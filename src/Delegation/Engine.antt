-- ===== src/Delegation/Engine.antt =====
-- `DelegationPolicyEngine` (core/delegation/policy.py), method by method. `hex` stands for the
-- fresh `uuid4().hex` of a call.
use Prim.Native.String.{◌++◌ as append}
use soulmate.Prelude.{
  ℕ, ◌+◌, ◌*◌, String, Bool, true, false, not, ◌||◌, Option, none, some, List, [], ◌∷◌, ◌==◌,
  if◌then◌else◌, ltb, eqb,
}
use soulmate.Exec.{Result, ok, err, raise, raise_if, pure, gets, lift, or_raise, ◌>>=◌, ◌>>◌}
use soulmate.Text.{strip}
use soulmate.Float.{Float, lt_float, one_float, ninety_percent, ninety_five_percent}
use soulmate.Delegation.Records.{
  DecisionImpact, low, medium, high, safety_critical, DelegationStatus, pending, approved, rejected,
  completed, expired, eq_status, requires_confirmation, DelegationPolicy, policy_ok,
  DelegationRequest, request_ok, DecisionPrediction,
}
use soulmate.Delegation.Store.{
  Store, Error, confidence_below_floor, invalid_policy, external_request_reused,
  action_not_approved, prediction_required, foreign_prediction, stale_prediction, request_not_found,
  not_reviewable, changed_before_review, not_completable, changed_before_completion,
  policy_not_found, value_error, index_error, Action, get_for_action, upsert, remove, add, get,
  get_by_external_request, list_for_profile, transition, get_decision, latest_prediction,
  latest_snapshot,
}

-- `DEFAULT_DELEGATION_TTL`, 24 hours in microseconds
abbrev default_delegation_ttl : ℕ
default_delegation_ttl = 24 * 60 * 60 * 1000000

-- `IMPACT_CONFIDENCE_FLOORS`
unfoldable pub impact_confidence_floor : DecisionImpact → Float
impact_confidence_floor low = ninety_percent
impact_confidence_floor medium = ninety_five_percent
impact_confidence_floor high = one_float
impact_confidence_floor safety_critical = one_float

-- The policy that `set_policy` writes: an existing one keeps its id and its date of creation.
abbrev drafted_policy :
    String
    → String
    → String
    → DecisionImpact
    → Float
    → Bool
    → ℕ
    → String
    → Option DelegationPolicy
    → DelegationPolicy
drafted_policy profile_id service_identity_id action impact minimum automatic now hex existing =
    record {
      id = elim existing [ none ↦ append "policy_" hex | some p ↦ p.id ];
      profile_id = profile_id;
      service_identity_id = service_identity_id;
      action_type = action;
      impact = impact;
      minimum_confidence = minimum;
      allow_automatic = automatic;
      created_at = elim existing [ none ↦ now | some p ↦ p.created_at ];
      updated_at = now;
    }

unfoldable pub set_policy :
    String → String → String → DecisionImpact → Float → Bool → ℕ → String → Action DelegationPolicy
set_policy profile_id service_identity_id action_type impact minimum automatic now hex = do
  let action = strip action_type
  raise_if (lt_float minimum (impact_confidence_floor impact)) confidence_below_floor
  existing ← gets (get_for_action profile_id service_identity_id action)
  let policy =
      drafted_policy profile_id service_identity_id action impact minimum automatic now hex existing
  raise_if (not (policy_ok policy)) invalid_policy
  upsert policy

-- `_classify`
unfoldable pub classify : DelegationPolicy → Float → DelegationStatus × String
classify policy confidence =
    if requires_confirmation policy.impact
    then (pending, "impact_requires_approval")
    else if not policy.allow_automatic
    then (pending, "owner_approval_required")
    else if lt_float confidence policy.minimum_confidence
    then (pending, "confidence_below_threshold")
    else (approved, "automatic_threshold_met")

-- `_required_request`
unfoldable pub required_request : String → Action DelegationRequest
required_request request_id = do found ← gets (get request_id); or_raise found request_not_found

-- `_required_owned_request`
unfoldable pub required_owned_request : String → String → Action DelegationRequest
required_owned_request profile_id request_id = do
  request ← required_request request_id
  raise_if (not (request.profile_id == profile_id)) request_not_found
  pure request

-- `status in (PENDING, APPROVED)`
abbrev pub is_open : DelegationStatus → Bool
is_open pending = true
is_open approved = true
is_open s = false

-- `_refresh_expiry`
unfoldable pub refresh_expiry : DelegationRequest → ℕ → Action DelegationRequest
refresh_expiry request now =
    if not (is_open request.status)
    then pure request
    else if ltb now request.expires_at
    then pure request
    else do
      moved ← transition request.id request.status expired "request_expired" now
      if moved
          then pure (record request {
            status = expired;
            reason_code = "request_expired";
            expired_at = some now;
          })
          else required_request request.id

-- What a caller of `request` passes.
pub record Submission : Type 0 where
  pub profile_id : String
  pub service_identity_id : String
  pub decision_id : String
  pub action_type : String
  pub action_label : String
  pub external_request_id : String
  pub now : ℕ
  pub hex : String

-- The stored prediction that a new request may rest on.
unfoldable pub usable_prediction : String → String → Store → Result Error DecisionPrediction
usable_prediction profile_id decision_id s = elim (get_decision decision_id s) [
  | none ↦ err prediction_required
  | some stored ↦ elim (latest_prediction decision_id s) [
    | none ↦ err prediction_required
    | some prediction ↦
        if not (stored.profile_id == profile_id)
        then err prediction_required
        else if not (prediction.profile_id == profile_id)
        then err foreign_prediction
        else elim (latest_snapshot profile_id s) [
          | none ↦ err stale_prediction
          | some snapshot ↦
              if not (eqb prediction.model_snapshot_version snapshot.version)
              then err stale_prediction
              else ok prediction
        ]
  ]
]

abbrev pub drafted_request :
    Submission → DelegationPolicy → DecisionPrediction → String → DelegationRequest
drafted_request c policy prediction option_id = record {
  id = append "delegation_" c.hex;
  profile_id = c.profile_id;
  service_identity_id = c.service_identity_id;
  policy_id = some policy.id;
  decision_id = c.decision_id;
  prediction_id = prediction.id;
  external_request_id = strip c.external_request_id;
  action_type = policy.action_type;
  action_label = strip c.action_label;
  impact = policy.impact;
  predicted_option_id = option_id;
  prediction_confidence = prediction.confidence;
  status = (classify policy prediction.confidence).0;
  reason_code = (classify policy prediction.confidence).1;
  requested_at = c.now;
  expires_at = c.now + default_delegation_ttl;
  reviewed_at = none;
  completed_at = none;
  expired_at = none;
}

abbrev pub ranked_first : List String → Result Error String
ranked_first [] = err index_error
ranked_first (option_id ∷ rest) = ok option_id

-- `request` for an external id that is new
unfoldable pub request_new : Submission → Action DelegationRequest
request_new c = do
  policy ←
      or_raise (← gets (get_for_action c.profile_id c.service_identity_id (strip c.action_type)))
        action_not_approved
  prediction ← lift (← gets (usable_prediction c.profile_id c.decision_id))
  option_id ← lift (ranked_first prediction.ranking)
  let request = drafted_request c policy prediction option_id
  raise_if (not (request_ok request)) value_error
  add request
  pure request

-- `request` for an external id that is stored
unfoldable pub request_again : Submission → DelegationRequest → Action DelegationRequest
request_again c existing =
    if not (existing.decision_id == c.decision_id)
      || not (existing.action_type == strip c.action_type)
      || not (existing.action_label == strip c.action_label)
    then raise external_request_reused
    else refresh_expiry existing c.now

abbrev pub request_by : Submission → Option DelegationRequest → Action DelegationRequest
request_by c none = request_new c
request_by c (some existing) = request_again c existing

unfoldable pub request : Submission → Action DelegationRequest
request c = do
  existing ← gets (get_by_external_request c.service_identity_id (strip c.external_request_id))
  request_by c existing

unfoldable pub get_for_agent : String → String → ℕ → Action DelegationRequest
get_for_agent request_id service_identity_id now = do
  request ← required_request request_id
  raise_if (not (request.service_identity_id == service_identity_id)) request_not_found
  refresh_expiry request now

-- The loop of `list_for_owner`
unfoldable pub refresh_all : List DelegationRequest → ℕ → Action (List DelegationRequest)
refresh_all [] now = pure []
refresh_all (r ∷ rs) now = do
  fresh ← refresh_expiry r now
  rest ← refresh_all rs now
  pure (fresh ∷ rest)

unfoldable pub list_for_owner : String → ℕ → Action (List DelegationRequest)
list_for_owner profile_id now = do items ← gets (list_for_profile profile_id); refresh_all items now

-- The status and the reason that a review writes, and what it may review.
abbrev pub verdict : Bool → DelegationStatus
verdict true = approved
verdict false = rejected

abbrev pub verdict_reason : Bool → String
verdict_reason true = "owner_approved"
verdict_reason false = "owner_rejected"

abbrev pub is_reviewable : Bool → DelegationStatus → Bool
is_reviewable true status = eq_status status pending
is_reviewable false status = is_open status

-- `review` from the test of the refreshed request on
unfoldable pub review_current : Bool → ℕ → DelegationRequest → Action DelegationRequest
review_current approval now request = do
  raise_if (not (is_reviewable approval request.status)) not_reviewable
  moved ← transition request.id request.status (verdict approval) (verdict_reason approval) now
  raise_if (not moved) changed_before_review
  pure (record request {
    status = verdict approval;
    reason_code = verdict_reason approval;
    reviewed_at = some now;
  })

unfoldable pub review : String → String → Bool → ℕ → Action DelegationRequest
review profile_id request_id approval now = do
  owned ← required_owned_request profile_id request_id
  request ← refresh_expiry owned now
  review_current approval now request

-- `complete` from the test of the refreshed request on
unfoldable pub complete_current : ℕ → DelegationRequest → Action DelegationRequest
complete_current now request = do
  raise_if (not (eq_status request.status approved)) not_completable
  moved ← transition request.id approved completed "agent_completed" now
  raise_if (not moved) changed_before_completion
  pure (record request {
    status = completed;
    reason_code = "agent_completed";
    completed_at = some now;
  })

unfoldable pub complete : String → String → ℕ → Action DelegationRequest
complete request_id service_identity_id now = do
  request ← get_for_agent request_id service_identity_id now
  complete_current now request

unfoldable pub remove_policy : String → String → Action Unit
remove_policy profile_id policy_id = do
  removed ← remove profile_id policy_id
  raise_if (not removed) policy_not_found
