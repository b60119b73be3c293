-- ===== src/Delegation/Trace.antt =====
-- The atomic transactions that the engine itself makes, a closed list of them: what Delegation.Steps
-- allows to any client, without the changes of other tables and with the reason of each change.
use soulmate.Prelude.{ℕ, String, ◌≡◌, false, any, ◌==◌}
use soulmate.Delegation.Records.{
  DelegationPolicy, DelegationRequest, DelegationStatus, pending, approved, rejected, completed,
  expired,
}
use soulmate.Delegation.Store.{Store, transition, remove, upsert, request_conflict}
use soulmate.Delegation.Steps.{Allowed, IsNew, IsSafe, insert}

-- The reason that goes with a new status
abbrev pub reason_of : DelegationStatus → String
reason_of pending = "owner_approval_required"
reason_of approved = "owner_approved"
reason_of rejected = "owner_rejected"
reason_of completed = "agent_completed"
reason_of expired = "request_expired"

pub data EngineStep : Store → Store → Type 0 where
  submitted :
      (s : Store) (r : DelegationRequest)
      → any (request_conflict r) s.requests ≡ false
      → IsNew r
      → (r.reason_code == "owner_approved") ≡ false
      → EngineStep s (insert r s)
  changed :
      (s : Store) (id : String) {e st : DelegationStatus}
      → Allowed e st
      → (t : ℕ) → EngineStep s (transition id e st (reason_of st) t s).1
  unlinked :
      (s : Store) (profile_id policy_id : String) → EngineStep s (remove profile_id policy_id s).1
  upserted : (s : Store) (p : DelegationPolicy) → IsSafe p → EngineStep s (upsert p s).1

pub data Trace (s : Store) : Store → Type 0 where
  start : Trace s s
  and_then : {t u : Store} → Trace s t → EngineStep t u → Trace s u

pub Trace-trans : {s t u : Store} → Trace s t → Trace t u → Trace s u
Trace-trans p start = p
Trace-trans p (and_then q st) = and_then (Trace-trans p q) st

pub only_step : {s t : Store} → EngineStep s t → Trace s t
only_step st = and_then start st
