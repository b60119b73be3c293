-- ===== src/Delegation/Outcomes.antt =====
-- What each call on a stored request returns and leaves in its row, on every branch.
use soulmate.Prelude.{
  ℕ, String, ◌≡◌, refl, ap, subst, ◌∙◌, ◌≢◌, false, some, arith, ◌==◌, eq_iff, if◌then◌else◌, inl,
  inr, Bool-cases, ltb, Option-cases,
}
use soulmate.Exec.{Result, ok, err, bind_of_ok}
use soulmate.Delegation.Records.{DelegationRequest, expired}
use soulmate.Delegation.Store.{Store, Error, get, transition, move, request_not_found}
use soulmate.Delegation.Engine.{is_open, refresh_expiry, required_request, get_for_agent}
use soulmate.Delegation.Laws.{transition_moves, get_id}

-- A request as it stands at `now`.
unfoldable pub refreshed : ℕ → DelegationRequest → DelegationRequest
refreshed now r =
    if is_open r.status
    then (if ltb now r.expires_at then r else move expired "request_expired" now r)
    else r

ne_false : (a b : String) → a ≢ b → (a == b) ≡ false
ne_false a b h = ground (arith, eq_iff a b)

abbrev Settled : String → Result Error DelegationRequest × Store → DelegationRequest → Type 0
Settled id out q = (out.0 ≡ ok q) × (get id out.1 ≡ some q)

refresh_lem :
    (now : ℕ) (r : DelegationRequest) (s : Store)
    → get r.id s ≡ some r
    → Settled r.id (refresh_expiry r now s) (refreshed now r)
unfolding refresh_expiry refreshed
refresh_lem now r s found = elim (Bool-cases (is_open r.status)) [
  | inr shut ↦ rw shut (refl, found)
  | inl live ↦ elim (Bool-cases (ltb now r.expires_at)) [
    | inl early ↦ rw (live, early) (refl, found)
    | inr late ↦
        let (moved, stored) =
          transition_moves r.id r.status expired "request_expired" now s r found refl in
        rw (live, late)
          (rw (bind_of_ok (transition r.id r.status expired "request_expired" now) _ s moved)
            (unfold move in refl, stored))
  ]
]

-- The same, for the id under which the request was found.
pub refresh_found :
    (now : ℕ) (id : String) (r : DelegationRequest) (s : Store)
    → get id s ≡ some r
    → Settled id (refresh_expiry r now s) (refreshed now r)
refresh_found now id r s found =
    subst (λ j. Settled j (refresh_expiry r now s) (refreshed now r)) (get_id id s found)
      (refresh_lem now r s (ap (λ j. get j s) (get_id id s found) ∙ found))

get_for_agent_own :
    (id svc : String) (now : ℕ) (s : Store) (r : DelegationRequest)
    → get id s ≡ some r
    → r.service_identity_id ≡ svc
    → get_for_agent id svc now s ≡ refresh_expiry r now s
unfolding get_for_agent required_request
get_for_agent_own id svc now s r found own = rw (found, (eq_iff r.service_identity_id svc).1 own)

-- An agent sees its own request as it stands at the time of the call, and the store then holds
-- what it saw.
pub get_for_agent_lem :
    (id svc : String) (now : ℕ) (s : Store) (r : DelegationRequest)
    → get id s ≡ some r
    → r.service_identity_id ≡ svc
    → let out = get_for_agent id svc now s in
      (out.0 ≡ ok (refreshed now r)) × (get id out.1 ≡ some (refreshed now r))
get_for_agent_lem id svc now s r found own =
    rw (get_for_agent_own id svc now s r found own) (refresh_found now id r s found)

-- If no stored request has both the given id and the given agent, reading it raises the not-found
-- error and leaves the store alone, whether the id is another agent's or not stored at all.
pub get_for_agent_hides :
    (id svc : String) (now : ℕ) (s : Store)
    → ((r : DelegationRequest) → get id s ≡ some r → r.service_identity_id ≢ svc)
    → get_for_agent id svc now s ≡ (err request_not_found, s)
unfolding get_for_agent required_request
get_for_agent_hides id svc now s foreign = elim (Option-cases (get id s)) [
  | inl absent ↦ rw absent
  | inr (r, found) ↦ rw (found, ne_false r.service_identity_id svc (foreign r found))
]
