-- ===== src/Delegation/Verdicts.antt =====
-- What a review and a completion of a stored request return and leave, on every branch.
use soulmate.Prelude.{
  ℕ, String, ◌≡◌, refl, ap, subst, ◌∙◌, Bool, true, false, some, arith, eq_iff, if◌then◌else◌, inl,
  inr, Bool-cases,
}
use soulmate.Exec.{Result, ok, err, bind_of_ok, ◌>>=◌}
use soulmate.Delegation.Records.{
  DelegationRequest, DelegationStatus, pending, approved, rejected, completed, expired, eq_status,
}
use soulmate.Delegation.Store.{Store, Error, get, transition, move, not_reviewable, not_completable}
use soulmate.Delegation.Engine.{
  is_reviewable, verdict, verdict_reason, refresh_expiry, required_request, required_owned_request,
  get_for_agent, review, review_current, complete, complete_current,
}
use soulmate.Delegation.Laws.{transition_moves, get_id, eq_status_iff, id-move}
use soulmate.Delegation.Outcomes.{refreshed, refresh_found, get_for_agent_lem}

-- The requests that may be approved, and those that may be rejected
abbrev approvable : DelegationStatus → Bool
approvable pending = true
approvable approved = false
approvable rejected = false
approvable completed = false
approvable expired = false

abbrev rejectable : DelegationStatus → Bool
rejectable pending = true
rejectable approved = true
rejectable rejected = false
rejectable completed = false
rejectable expired = false

abbrev answered :
    Bool
    → DelegationRequest
    → DelegationRequest
    → Result Error DelegationRequest × DelegationRequest
answered true q r = (ok r, r)
answered false q r = (err not_reviewable, q)

-- What a review of a request that stands as `q` returns, and what it leaves of the request.
abbrev pub reviewed :
    Bool → ℕ → DelegationRequest → Result Error DelegationRequest × DelegationRequest
reviewed true now q =
    answered (approvable q.status) q
      (record q { status = approved; reason_code = "owner_approved"; reviewed_at = some now })
reviewed false now q =
    answered (rejectable q.status) q
      (record q { status = rejected; reason_code = "owner_rejected"; reviewed_at = some now })

-- The same, in the words of the engine
abbrev moved_to : Bool → ℕ → DelegationRequest → Result Error DelegationRequest × DelegationRequest
moved_to approval now q =
    answered (is_reviewable approval q.status) q
      (move (verdict approval) (verdict_reason approval) now q)

approvable_lem : (st : DelegationStatus) → is_reviewable true st ≡ approvable st
approvable_lem pending = refl
approvable_lem approved = refl
approvable_lem rejected = refl
approvable_lem completed = refl
approvable_lem expired = refl

rejectable_lem : (st : DelegationStatus) → is_reviewable false st ≡ rejectable st
rejectable_lem pending = refl
rejectable_lem approved = refl
rejectable_lem rejected = refl
rejectable_lem completed = refl
rejectable_lem expired = refl

reviewed_lem :
    (approval : Bool) (now : ℕ) (q : DelegationRequest)
    → moved_to approval now q ≡ reviewed approval now q
unfolding move
reviewed_lem true now q =
    ap (λ b. answered b q (move approved "owner_approved" now q)) (approvable_lem q.status)
reviewed_lem false now q =
    ap (λ b. answered b q (move rejected "owner_rejected" now q)) (rejectable_lem q.status)

move-verdict :
    (b : Bool) (now : ℕ) (q : DelegationRequest)
    → move (verdict b) (verdict_reason b) now q
      ≡ record q { status = verdict b; reason_code = verdict_reason b; reviewed_at = some now }
unfolding move
move-verdict true now q = refl
move-verdict false now q = refl

review_refreshed :
    (profile_id id : String) (approval : Bool) (now : ℕ) (s : Store) (r : DelegationRequest)
    → get id s ≡ some r
    → r.profile_id ≡ profile_id
    → review profile_id id approval now s ≡ (refresh_expiry r now >>= review_current approval now) s
unfolding review required_owned_request required_request
review_refreshed profile_id id approval now s r found own =
    rw (found, (eq_iff r.profile_id profile_id).1 own)

id-refreshed : (now : ℕ) (r : DelegationRequest) → (refreshed now r).id ≡ r.id
unfolding refreshed
id-refreshed now r = ground (arith, id-move expired "request_expired" now r)

review_moves :
    (approval : Bool) (now : ℕ) (q : DelegationRequest) (s : Store)
    → get q.id s ≡ some q
    → is_reviewable approval q.status ≡ true
    → review_current approval now q s ≡ (
      ok (move (verdict approval) (verdict_reason approval) now q),
      (transition q.id q.status (verdict approval) (verdict_reason approval) now s).1,
    )
unfolding review_current
review_moves approval now q s found fine =
    let (moved, stored) =
      transition_moves q.id q.status (verdict approval) (verdict_reason approval) now s q found
        refl in
    rw fine (
      bind_of_ok (transition q.id q.status (verdict approval) (verdict_reason approval) now) _ s
        moved
      ∙ rw move-verdict refl)

-- The rest of a review, on a request that is stored as it was read.
review_moved :
    (approval : Bool) (now : ℕ) (q : DelegationRequest) (s : Store)
    → get q.id s ≡ some q
    → let out = review_current approval now q s in
      (out.0 ≡ (moved_to approval now q).0) × (get q.id out.1 ≡ some (moved_to approval now q).1)
review_moved approval now q s found = elim (Bool-cases (is_reviewable approval q.status)) [
  | inr refused ↦ rw refused (unfold review_current in rw refused (refl, found))
  | inl fine ↦
      rw (review_moves approval now q s found fine, fine)
        (
          refl,
          (transition_moves q.id q.status (verdict approval) (verdict_reason approval) now s q found
              refl).1,
        )
]

review_stored :
    (approval : Bool) (now : ℕ) (q : DelegationRequest) (s : Store)
    → get q.id s ≡ some q
    → let out = review_current approval now q s in
      (out.0 ≡ (reviewed approval now q).0) × (get q.id out.1 ≡ some (reviewed approval now q).1)
review_stored approval now q s found =
    subst
      (λ (x : Result Error DelegationRequest × DelegationRequest).
        let out = review_current approval now q s in (out.0 ≡ x.0) × (get q.id out.1 ≡ some x.1))
      (reviewed_lem approval now q) (review_moved approval now q s found)

-- For a stored request of the profile, a review returns, and leaves stored, the result of the
-- decision table `reviewed` on the request as it stands after expiry: approval of a pending one,
-- rejection of a pending or approved one, and otherwise a refusal that keeps it.
pub review_lem :
    (profile_id id : String) (approval : Bool) (now : ℕ) (s : Store) (r : DelegationRequest)
    → get id s ≡ some r
    → r.profile_id ≡ profile_id
    → let out = review profile_id id approval now s in
      (out.0 ≡ (reviewed approval now (refreshed now r)).0)
      × (get id out.1 ≡ some (reviewed approval now (refreshed now r)).1)
review_lem profile_id id approval now s r found own =
    let (answer, kept) = refresh_found now id r s found in
    let same = id-refreshed now r ∙ get_id id s found in
    rw (review_refreshed profile_id id approval now s r found own) (
      rw (bind_of_ok (refresh_expiry r now) (review_current approval now) s answer) (
        subst
          (λ j.
            ((review_current approval now (refreshed now r) (refresh_expiry r now s).1).0
              ≡ (reviewed approval now (refreshed now r)).0)
            × (get j (review_current approval now (refreshed now r) (refresh_expiry r now s).1).1
                ≡ some (reviewed approval now (refreshed now r)).1))
          same
          (review_stored approval now (refreshed now r) (refresh_expiry r now s).1
            (ap (λ j. get j (refresh_expiry r now s).1) same ∙ kept))))

-- The same for a completion.
abbrev pub finished : ℕ → DelegationRequest → Result Error DelegationRequest × DelegationRequest
finished now q =
    if eq_status q.status approved
    then (ok (move completed "agent_completed" now q), move completed "agent_completed" now q)
    else (err not_completable, q)

complete_moves :
    (now : ℕ) (q : DelegationRequest) (s : Store)
    → get q.id s ≡ some q
    → eq_status q.status approved ≡ true
    → complete_current now q s ≡ (
      ok (move completed "agent_completed" now q),
      (transition q.id approved completed "agent_completed" now s).1,
    )
unfolding complete_current move
complete_moves now q s found fine =
    let (moved, stored) =
      transition_moves q.id approved completed "agent_completed" now s q found
        (eq_status_iff q.status approved fine) in
    rw fine (bind_of_ok (transition q.id approved completed "agent_completed" now) _ s moved)

complete_stored :
    (now : ℕ) (q : DelegationRequest) (s : Store)
    → get q.id s ≡ some q
    → let out = complete_current now q s in
      (out.0 ≡ (finished now q).0) × (get q.id out.1 ≡ some (finished now q).1)
complete_stored now q s found = elim (Bool-cases (eq_status q.status approved)) [
  | inr refused ↦ rw refused (unfold complete_current in rw refused (refl, found))
  | inl fine ↦
      rw (complete_moves now q s found fine, fine)
        (
          refl,
          (transition_moves q.id approved completed "agent_completed" now s q found
              (eq_status_iff q.status approved fine)).1,
        )
]

-- For a stored request of the calling agent, a completion returns, and leaves stored, the result of
-- the table `finished` on the request as it stands after expiry: completion of an approved one, and
-- otherwise a refusal that keeps it.
pub complete_lem :
    (id svc : String) (now : ℕ) (s : Store) (r : DelegationRequest)
    → get id s ≡ some r
    → r.service_identity_id ≡ svc
    → let out = complete id svc now s in
      (out.0 ≡ (finished now (refreshed now r)).0)
      × (get id out.1 ≡ some (finished now (refreshed now r)).1)
unfolding complete
complete_lem id svc now s r found own =
    let (answer, kept) = get_for_agent_lem id svc now s r found own in
    let same = id-refreshed now r ∙ get_id id s found in
    let t = (get_for_agent id svc now s).1 in
    rw (bind_of_ok (get_for_agent id svc now) (complete_current now) s answer) (
      subst
        (λ j.
          ((complete_current now (refreshed now r) t).0 ≡ (finished now (refreshed now r)).0)
          × (get j (complete_current now (refreshed now r) t).1
              ≡ some (finished now (refreshed now r)).1))
        same (complete_stored now (refreshed now r) t (ap (λ j. get j t) same ∙ kept)))
