-- ===== src/Delegation/Once.antt =====
-- An approval is used at most once, and not after its expiry, under any interleaving.
use soulmate.Prelude.{
  ℕ, ◌<◌, String, ◌≡◌, refl, sym, ap, ◌∙◌, ◌≢◌, false, some, arith, ◌==◌, eq_iff, inl, inr,
  Bool-cases, ltb, ltb→lt, some_inj, Option-cases,
}
use soulmate.Exec.{ok, err, bind_of_err}
use soulmate.Delegation.Records.{
  DelegationRequest, DelegationStatus, approved, completed, eq_status,
}
use soulmate.Delegation.Store.{Store, get, move, request_not_found}
use soulmate.Delegation.Engine.{is_open, get_for_agent, complete, complete_current}
use soulmate.Delegation.Steps.{Reach}
use soulmate.Delegation.Fate.{closed_is_final}
use soulmate.Delegation.Laws.{eq_status_iff}
use soulmate.Delegation.Outcomes.{refreshed, get_for_agent_hides}
use soulmate.Delegation.Verdicts.{finished, complete_lem}

complete_foreign :
    (id svc : String) (now : ℕ) (s : Store)
    → ((r : DelegationRequest) → get id s ≡ some r → r.service_identity_id ≢ svc)
    → (complete id svc now s).0 ≡ err request_not_found
unfolding complete
complete_foreign id svc now s foreign =
    let hidden = get_for_agent_hides id svc now s foreign in
    ap (λ out. out.0)
      (bind_of_err (get_for_agent id svc now) (complete_current now) s (ap (λ out. out.0) hidden))

other_agent :
    {svc : String} (x y : DelegationRequest)
    → (x.service_identity_id == svc) ≡ false
    → x ≡ y
    → y.service_identity_id ≢ svc
other_agent {svc} x y foreign same e = ground (arith, eq_iff x.service_identity_id svc)

closed_approved : (st : DelegationStatus) → is_open st ≡ false → st ≢ approved
closed_approved st h e = ground arith

-- A successful completion is of a stored request of that agent.
complete_found :
    (id svc : String) (now : ℕ) (s : Store) (r : DelegationRequest)
    → (complete id svc now s).0 ≡ ok r
    → (x : DelegationRequest) × (get id s ≡ some x) × (x.service_identity_id ≡ svc)
complete_found id svc now s r done = elim (Option-cases (get id s)) [
  | inl absent ↦ absurd (cc (done, complete_foreign id svc now s (λ y f e. cc)))
  | inr (x, found) ↦ elim (Bool-cases (x.service_identity_id == svc)) [
    | inl own ↦ (x, found, (eq_iff x.service_identity_id svc).0 own)
    | inr foreign ↦ absurd (
        cc (
          done,
          complete_foreign id svc now s
              (λ y f e. other_agent x y foreign (some_inj (sym found ∙ f)) e),
        ))
  ]
]

refreshed_approved :
    (now : ℕ) (x : DelegationRequest)
    → (refreshed now x).status ≡ approved
    → (refreshed now x ≡ x) × (x.status ≡ approved) × (now < x.expires_at)
unfolding refreshed move
refreshed_approved now x h = elim (Bool-cases (is_open x.status)) [
  | inl live ↦ elim (Bool-cases (ltb now x.expires_at)) [
    | inl early ↦ rw (live, early) (refl, (rw (live, early) at h), ltb→lt now x.expires_at early)
    | inr late ↦ absurd (cc (rw (live, late) at h))
  ]
  | inr shut ↦ absurd (closed_approved x.status shut (rw shut at h))
]

finished_ok :
    (now : ℕ) (q r : DelegationRequest)
    → (finished now q).0 ≡ ok r
    → (q.status ≡ approved) × ((finished now q).1 ≡ move completed "agent_completed" now q)
finished_ok now q r h = elim (Bool-cases (eq_status q.status approved)) [
  | inl fine ↦ (eq_status_iff q.status approved fine, rw fine)
  | inr refused ↦ absurd (cc (rw refused at h))
]

-- A completion returns a request only if the stored request belongs to the calling agent, is
-- approved and has not reached its expiry; the stored row is then that request, completed at that
-- time.
pub complete_needs_approval :
    (id svc : String) (now : ℕ) (s : Store) (r : DelegationRequest)
    → (complete id svc now s).0 ≡ ok r
    → (x : DelegationRequest) × (get id s ≡ some x)
      × (x.service_identity_id ≡ svc)
      × (x.status ≡ approved)
      × (now < x.expires_at)
      × (get id (complete id svc now s).1 ≡ some (move completed "agent_completed" now x))
complete_needs_approval id svc now s r done =
    let (x, found, own) = complete_found id svc now s r done in
    let (answer, stored) = complete_lem id svc now s x found own in
    let (was, row) = finished_ok now (refreshed now x) r (sym answer ∙ done) in
    let (same, status, early) = refreshed_approved now x was in
    (
      x,
      found,
      own,
      status,
      early,
      stored ∙ ap some (row ∙ ap (move completed "agent_completed" now) same),
    )

status-completed :
    (now : ℕ) (x : DelegationRequest) → (move completed "agent_completed" now x).status ≡ completed
unfolding move
status-completed now x = refl

-- After a completion of a request has returned it, no completion of the same request returns one,
-- by any agent, at any time, after any sequence of the atomic transactions of other clients.
pub complete_once :
    (id svc svc' : String) (now now' : ℕ) (s t : Store) (r r' : DelegationRequest)
    → (complete id svc now s).0 ≡ ok r
    → Reach (complete id svc now s).1 t
    → (complete id svc' now' t).0 ≢ ok r'
complete_once id svc svc' now now' s t r r' done later again =
    let (x, found, own, status, early, stored) = complete_needs_approval id svc now s r done in
    let q = move completed "agent_completed" now x in
    let (y, found', fate) =
      closed_is_final id q later stored (ap is_open (status-completed now x)) in
    let (z, found'', own', status', early', rest) =
      complete_needs_approval id svc' now' t r' again in
    let same = some_inj (sym found' ∙ found'') in
    absurd (
      cc (
        sym status'
        ∙ ap (λ w. w.status) (sym same)
        ∙ ap (λ w. w.status) fate
        ∙ status-completed now x))
