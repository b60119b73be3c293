-- ===== src/Delegation/Store.antt =====
-- The rows that the delegation repositories keep, and the repositories' methods
-- (storage-sqlite/repositories.py). Each method is one transaction. The foreign key of
-- `delegation_requests.policy_id` is ON DELETE SET NULL; those to profiles and to service
-- identities, which are never deleted, hold.
use Prim.Native.String.{compare}
use text.Mathlib.Text.{is_lt}
use soulmate.Prelude.{
  ℕ, String, Bool, true, false, ◌&&◌, ◌||◌, Option, none, some, List, [], ◌∷◌, ◌++◌, ◌==◌, any,
  find, update_where, delete_where, filter, sort_by, if◌then◌else◌, ltb, eqb,
}
use soulmate.Exec.{Exec, raise_if, modify, pure, gets, ok, ◌>>=◌, ◌>>◌}
use soulmate.Delegation.Records.{
  DelegationPolicy, DelegationRequest, DelegationStatus, pending, approved, rejected, completed,
  expired, eq_status, DecisionEvent, DecisionPrediction, UserModelSnapshot,
}

pub record Store : Type 0 where
  pub policies : List DelegationPolicy
  pub requests : List DelegationRequest
  pub decisions : List DecisionEvent
  pub predictions : List DecisionPrediction
  pub snapshots : List UserModelSnapshot

-- `DelegationError`, a constructor for each message, and the exceptions of other classes that
-- these methods let through.
pub data Error : Type 0 where
  confidence_below_floor invalid_policy external_request_reused action_not_approved : Error
  prediction_required foreign_prediction stale_prediction request_not_found : Error
  not_reviewable changed_before_review not_completable changed_before_completion : Error
  policy_not_found value_error index_error integrity_error : Error

abbrev pub Action : Type 0 → Type 0
Action A = Exec Error Store A

abbrev pub for_action : String → String → String → DelegationPolicy → Bool
for_action profile_id service_identity_id action_type p =
    p.profile_id == profile_id
    && p.service_identity_id == service_identity_id
    && p.action_type == action_type

-- `SqliteDelegationPolicyRepository.get_for_action`
unfoldable pub get_for_action : String → String → String → Store → Option DelegationPolicy
get_for_action profile_id service_identity_id action_type s =
    find (for_action profile_id service_identity_id action_type) s.policies

-- The primary key and the unique index (service_identity_id, action_type).
abbrev pub policy_conflict : DelegationPolicy → DelegationPolicy → Bool
policy_conflict p q =
    q.id == p.id
    || (q.service_identity_id == p.service_identity_id && q.action_type == p.action_type)

abbrev pub revise_policy : DelegationPolicy → DelegationPolicy → DelegationPolicy
revise_policy p row = record row {
  impact = p.impact;
  minimum_confidence = p.minimum_confidence;
  allow_automatic = p.allow_automatic;
  updated_at = p.updated_at;
}

abbrev pub upsert_row : DelegationPolicy → Option DelegationPolicy → Action DelegationPolicy
upsert_row p none = do
  stored ← gets (λ s. s.policies)
  raise_if (any (policy_conflict p) stored) integrity_error
  modify (λ s. record s { policies = s.policies ++ p ∷ [] })
  pure p
upsert_row p (some row) = do
  modify
      (λ s. record s { policies = update_where (λ q. q.id == row.id) (revise_policy p) s.policies })
  pure (revise_policy p row)

-- `SqliteDelegationPolicyRepository.upsert`
unfoldable pub upsert : DelegationPolicy → Action DelegationPolicy
upsert p = do
  row ← gets (get_for_action p.profile_id p.service_identity_id p.action_type)
  upsert_row p row

abbrev pub owned_policy : String → String → DelegationPolicy → Bool
owned_policy profile_id policy_id p = p.id == policy_id && p.profile_id == profile_id

abbrev pub names_policy : String → DelegationRequest → Bool
names_policy policy_id r = elim r.policy_id [ none ↦ false | some id ↦ id == policy_id ]

abbrev pub clear_policy : DelegationRequest → DelegationRequest
clear_policy r = record r { policy_id = none }

-- `SqliteDelegationPolicyRepository.remove`, with the requests that lose their policy
unfoldable pub remove : String → String → Action Bool
remove profile_id policy_id s =
    if any (owned_policy profile_id policy_id) s.policies
    then (
      ok true,
      record s {
        policies = delete_where (owned_policy profile_id policy_id) s.policies;
        requests = update_where (names_policy policy_id) clear_policy s.requests;
      },
    )
    else (ok false, s)

-- The primary key and the unique index (service_identity_id, external_request_id).
abbrev pub request_conflict : DelegationRequest → DelegationRequest → Bool
request_conflict r q =
    q.id == r.id
    || (q.service_identity_id == r.service_identity_id
        && q.external_request_id == r.external_request_id)

-- `SqliteDelegationRequestRepository.add`
unfoldable pub add : DelegationRequest → Action Unit
add r = do
  stored ← gets (λ s. s.requests)
  raise_if (any (request_conflict r) stored) integrity_error
  modify (λ s. record s { requests = s.requests ++ r ∷ [] })

-- `SqliteDelegationRequestRepository.get`
unfoldable pub get : String → Store → Option DelegationRequest
get request_id s = find (λ r. r.id == request_id) s.requests

-- `SqliteDelegationRequestRepository.get_by_external_request`
unfoldable pub get_by_external_request : String → String → Store → Option DelegationRequest
get_by_external_request service_identity_id external_request_id s =
    find
      (λ r.
        r.service_identity_id == service_identity_id
        && r.external_request_id == external_request_id)
      s.requests

-- ORDER BY a number descending, then an id descending
abbrev pub later : ℕ → String → ℕ → String → Bool
later m i n j = ltb n m || (eqb m n && is_lt (compare j i))

-- `SqliteDelegationRequestRepository.list_for_profile`
unfoldable pub list_for_profile : String → Store → List DelegationRequest
list_for_profile profile_id s =
    sort_by (λ a b. later a.requested_at a.id b.requested_at b.id)
      (filter (λ r. r.profile_id == profile_id) s.requests)

-- The values that `transition` writes into the row.
unfoldable pub move : DelegationStatus → String → ℕ → DelegationRequest → DelegationRequest
move pending reason_code changed_at r = record r { status = pending; reason_code = reason_code }
move approved reason_code changed_at r = record r {
  status = approved;
  reason_code = reason_code;
  reviewed_at = some changed_at;
}
move rejected reason_code changed_at r = record r {
  status = rejected;
  reason_code = reason_code;
  reviewed_at = some changed_at;
}
move completed reason_code changed_at r = record r {
  status = completed;
  reason_code = reason_code;
  completed_at = some changed_at;
}
move expired reason_code changed_at r = record r {
  status = expired;
  reason_code = reason_code;
  expired_at = some changed_at;
}

abbrev pub has_status : String → DelegationStatus → DelegationRequest → Bool
has_status request_id expected r = r.id == request_id && eq_status r.status expected

-- `SqliteDelegationRequestRepository.transition`: a compare-and-set on the status.
unfoldable pub transition : String → DelegationStatus → DelegationStatus → String → ℕ → Action Bool
transition request_id expected status reason_code changed_at s = (
  ok (any (has_status request_id expected) s.requests),
  record s {
    requests =
        update_where (has_status request_id expected) (move status reason_code changed_at)
          s.requests;
  },
)

-- `SqliteDecisionRepository.get`, of which the engine reads the event alone
unfoldable pub get_decision : String → Store → Option DecisionEvent
get_decision decision_id s = find (λ d. d.id == decision_id) s.decisions

abbrev first {ℓ} : {A : Type ℓ} → List A → Option A
first [] = none
first (x ∷ xs) = some x

-- `SqliteDecisionRepository.latest_prediction`
unfoldable pub latest_prediction : String → Store → Option DecisionPrediction
latest_prediction decision_id s = first (
    sort_by (λ a b. later a.created_at a.id b.created_at b.id)
      (filter (λ p. p.decision_id == decision_id) s.predictions))

-- `SqlitePersonalModelRepository.latest_snapshot`
unfoldable pub latest_snapshot : String → Store → Option UserModelSnapshot
latest_snapshot profile_id s = first (
    sort_by (λ a b. ltb b.version a.version) (filter (λ m. m.profile_id == profile_id) s.snapshots))
