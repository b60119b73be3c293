-- ===== src/Delegation/Steps.antt =====
-- The atomic transactions of concurrent delegation clients as a step relation. Every client of
-- the engine only ever takes such steps, in any interleaving.
use soulmate.Prelude.{ℕ, String, ◌≡◌, true, false, none, List, [], ◌∷◌, ◌++◌, any, All}
use soulmate.Delegation.Records.{
  DelegationPolicy, policy_ok, DelegationRequest, DelegationStatus, pending, approved, rejected,
  completed, expired, request_ok,
}
use soulmate.Float.{lt_float}
use soulmate.Delegation.Store.{Store, transition, remove, request_conflict}
use soulmate.Delegation.Engine.{is_open, impact_confidence_floor}

-- The lifecycle of a request.
pub data Allowed : DelegationStatus → DelegationStatus → Type 0 where
  approve : Allowed pending approved
  reject_pending : Allowed pending rejected
  reject_approved : Allowed approved rejected
  finish : Allowed approved completed
  expire_pending : Allowed pending expired
  expire_approved : Allowed approved expired

-- A request as it is first stored.
pub record IsNew (r : DelegationRequest) : Type 0 where
  pub valid : request_ok r ≡ true
  pub undecided : is_open r.status ≡ true
  pub unreviewed : r.reviewed_at ≡ none
  pub uncompleted : r.completed_at ≡ none
  pub unexpired : r.expired_at ≡ none

-- A policy that its constructor accepts and that keeps to the floor of its impact.
pub record IsSafe (p : DelegationPolicy) : Type 0 where
  pub valid : policy_ok p ≡ true
  pub above_floor : lt_float p.minimum_confidence (impact_confidence_floor p.impact) ≡ false

abbrev pub insert : DelegationRequest → Store → Store
insert r s = record s { requests = s.requests ++ r ∷ [] }

pub data Step : Store → Store → Type 0 where
  submit :
      (s : Store) (r : DelegationRequest)
      → any (request_conflict r) s.requests ≡ false
      → IsNew r
      → Step s (insert r s)
  change :
      (s : Store) (id : String) {e st : DelegationStatus}
      → Allowed e st
      → (why : String) (t : ℕ) → Step s (transition id e st why t s).1
  unlink : (s : Store) (profile_id policy_id : String) → Step s (remove profile_id policy_id s).1
  write_policies :
      (s : Store) (ps : List DelegationPolicy)
      → (All IsSafe s.policies → All IsSafe ps)
      → Step s (record s { policies = ps })
  other : (s t : Store) → t.requests ≡ s.requests → t.policies ≡ s.policies → Step s t

pub data Reach (s : Store) : Store → Type 0 where
  here : Reach s s
  next : {t u : Store} → Reach s t → Step t u → Reach s u

pub Reach-trans : {s t u : Store} → Reach s t → Reach t u → Reach s u
Reach-trans p here = p
Reach-trans p (next q st) = next (Reach-trans p q) st

pub one : {s t : Store} → Step s t → Reach s t
one st = next here st
