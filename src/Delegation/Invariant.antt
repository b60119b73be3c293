-- ===== src/Delegation/Invariant.antt =====
-- The stamps of every stored request agree with its status, whatever the clients do.
use soulmate.Prelude.{
  ℕ, String, ◌≡◌, refl, sym, ap, ◌∙◌, ◌==◌, true, false, some, Option, none, is_some, List, [], ◌∷◌,
  arith, any, All, All-map, All-append, update_where, set_where, inl, inr, Bool-cases,
}
use soulmate.Delegation.Records.{
  DelegationPolicy, DelegationRequest, DelegationStatus, pending, approved, rejected, completed,
  expired, request_ok,
}
use soulmate.Delegation.Store.{
  Store, upsert, upsert_row, policy_conflict, get_for_action, transition, remove, move, has_status,
  names_policy, clear_policy, owned_policy,
}
use soulmate.Delegation.Engine.{is_open}
use soulmate.Delegation.Laws.{eq_status_iff}
use soulmate.Delegation.Steps.{
  Allowed, approve, reject_pending, reject_approved, finish, expire_pending, expire_approved, IsNew,
}
use soulmate.Delegation.Trace.{
  reason_of, EngineStep, submitted, changed, unlinked, upserted, Trace, start, and_then,
}
use soulmate.Delegation.Runs.{Call, after, after-Trace}

-- Which of the three times a request in this status bears.
abbrev Stamps : DelegationStatus → String → Option ℕ → Option ℕ → Option ℕ → Type 0
Stamps pending why reviewed finished lapsed =
    (reviewed ≡ none) × (finished ≡ none) × (lapsed ≡ none)
Stamps approved why reviewed finished lapsed =
    (is_some reviewed ≡ (why == "owner_approved")) × (finished ≡ none) × (lapsed ≡ none)
Stamps rejected why reviewed finished lapsed =
    (is_some reviewed ≡ true) × (finished ≡ none) × (lapsed ≡ none)
Stamps completed why reviewed finished lapsed = (is_some finished ≡ true) × (lapsed ≡ none)
Stamps expired why reviewed finished lapsed = (finished ≡ none) × (is_some lapsed ≡ true)

pub record IsConsistent (r : DelegationRequest) : Type 0 where
  pub valid : request_ok r ≡ true
  pub stamps : Stamps r.status r.reason_code r.reviewed_at r.completed_at r.expired_at

new-Stamps :
    (st : DelegationStatus) (why : String) (a b c : Option ℕ)
    → is_open st ≡ true
    → (why == "owner_approved") ≡ false
    → a ≡ none
    → b ≡ none
    → c ≡ none
    → Stamps st why a b c
new-Stamps pending why a b c o other ha hb hc = (ha, hb, hc)
new-Stamps approved why a b c o other ha hb hc = (ap is_some ha ∙ sym other, hb, hc)
new-Stamps rejected why a b c o other ha hb hc = cc
new-Stamps completed why a b c o other ha hb hc = cc
new-Stamps expired why a b c o other ha hb hc = cc

request_ok-move :
    (st : DelegationStatus) (why : String) (t : ℕ) (r : DelegationRequest)
    → request_ok (move st why t r) ≡ request_ok r
unfolding request_ok move
request_ok-move pending why t r = refl
request_ok-move approved why t r = refl
request_ok-move rejected why t r = refl
request_ok-move completed why t r = refl
request_ok-move expired why t r = refl

move-Stamps :
    {e st : DelegationStatus} (t : ℕ) (r : DelegationRequest)
    → Allowed e st
    → r.status ≡ e
    → Stamps r.status r.reason_code r.reviewed_at r.completed_at r.expired_at
    → let r' = move st (reason_of st) t r in
      Stamps r'.status r'.reason_code r'.reviewed_at r'.completed_at r'.expired_at
unfolding move
move-Stamps t r approve e h = ground arith
move-Stamps t r reject_pending e h = ground arith
move-Stamps t r reject_approved e h = ground arith
move-Stamps t r finish e h = ground arith
move-Stamps t r expire_pending e h = ground arith
move-Stamps t r expire_approved e h = ground arith

module _ (id : String) {e st : DelegationStatus} (a : Allowed e st) (t : ℕ) where
  change-IsConsistent :
      (r : DelegationRequest)
      → IsConsistent r
      → IsConsistent (set_where (has_status id e) (move st (reason_of st) t) r)
  change-IsConsistent r h = elim (Bool-cases (has_status id e r)) [
    | inr off ↦ rw off h
    | inl on ↦ rw on (record {
      valid = rw (request_ok-move st (reason_of st) t r) h.valid;
      stamps = move-Stamps t r a (eq_status_iff r.status e (ground arith)) h.stamps;
    })
  ]

clear-IsConsistent :
    (policy_id : String) (r : DelegationRequest)
    → IsConsistent r
    → IsConsistent (set_where (names_policy policy_id) clear_policy r)
unfolding request_ok
clear-IsConsistent policy_id r h = elim (Bool-cases (names_policy policy_id r)) [
  | inr off ↦ rw off h
  | inl on ↦ rw on (record { valid = h.valid; stamps = h.stamps })
]

unlink-All :
    (profile_id policy_id : String) (s : Store)
    → All IsConsistent s.requests
    → All IsConsistent (remove profile_id policy_id s).1.requests
unfolding remove update_where
unlink-All profile_id policy_id s h =
    elim (Bool-cases (any (owned_policy profile_id policy_id) s.policies)) [
      | inr absent ↦ rw absent h
      | inl present ↦ rw present (
          All-map IsConsistent (set_where (names_policy policy_id) clear_policy)
            (clear-IsConsistent policy_id) s.requests h)
    ]

new-IsConsistent :
    (r : DelegationRequest) → IsNew r → (r.reason_code == "owner_approved") ≡ false → IsConsistent r
new-IsConsistent r new automatic = record {
  valid = new.valid;
  stamps =
      new-Stamps r.status r.reason_code r.reviewed_at r.completed_at r.expired_at new.undecided
        automatic new.unreviewed new.uncompleted new.unexpired;
}

upsert-requests : (p : DelegationPolicy) (s : Store) → (upsert p s).1.requests ≡ s.requests
unfolding upsert
upsert-requests p s = by_row (get_for_action p.profile_id p.service_identity_id p.action_type s)
  where
    by_row : (o : Option DelegationPolicy) → (upsert_row p o s).1.requests ≡ s.requests
    by_row (some row) = refl
    by_row none = elim (Bool-cases (any (policy_conflict p) s.policies)) [
      | inl clash ↦ rw clash refl
      | inr free ↦ rw free refl
    ]

EngineStep-All :
    {s t : Store} → EngineStep s t → All IsConsistent s.requests → All IsConsistent t.requests
unfolding transition update_where
EngineStep-All (submitted s r fresh new automatic) h =
    All-append IsConsistent s.requests (r ∷ []) h (new-IsConsistent r new automatic, tt)
EngineStep-All (changed s id {e} {st} a t) h =
    All-map IsConsistent (set_where (has_status id e) (move st (reason_of st) t))
      (change-IsConsistent id a t) s.requests h
EngineStep-All (unlinked s profile_id policy_id) h = unlink-All profile_id policy_id s h
EngineStep-All (upserted s p safe) h = rw (upsert-requests p s) h

Trace-All : {s t : Store} → Trace s t → All IsConsistent s.requests → All IsConsistent t.requests
Trace-All start h = h
Trace-All (and_then p st) h = EngineStep-All st (Trace-All p h)

-- The store after a sequence of calls, each of which may return or raise.
unfoldable pub after_all : List Call → Store → Store
after_all [] s = s
after_all (c ∷ cs) s = after_all cs (after c s)

-- If every stored request is valid and bears the times that its status asks for, then so does every
-- request after any sequence of calls of the engine: a pending one bears none, an approved one the
-- review time exactly if the owner approved it, a rejected one just the review time, a completed
-- one the completion time and an expired one the expiry time, these two with or without a review
-- time and without any other.
pub after_all-IsConsistent :
    (cs : List Call) (s : Store)
    → All IsConsistent s.requests
    → All IsConsistent (after_all cs s).requests
unfolding after_all
after_all-IsConsistent [] s h = h
after_all-IsConsistent (c ∷ cs) s h =
    after_all-IsConsistent cs (after c s) (Trace-All (after-Trace c s) h)
