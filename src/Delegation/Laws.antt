-- ===== src/Delegation/Laws.antt =====
-- What the request table returns after a compare-and-set, an insertion or a removed policy.
use soulmate.Prelude.{
  ℕ, String, ◌≡◌, ap, ◌∙◌, true, some, arith, ◌==◌, eq_iff, any, find-map, find_test, any_of_find,
  update_where, set_where, map_option, inl, inr, Bool-cases,
}
use soulmate.Exec.{ok}
use soulmate.Delegation.Records.{DelegationRequest, DelegationStatus, eq_status}
use soulmate.Delegation.Store.{Store, get, transition, move, has_status}

pub eq_status_iff : (a b : DelegationStatus) → eq_status a b ≡ true → a ≡ b
eq_status_iff a b h = ground arith

eq_status_refl : (a : DelegationStatus) → eq_status a a ≡ true
eq_status_refl a = ground arith

-- `transition` writes five columns at most, and never an identifier.
pub id-move :
    (st : DelegationStatus) (why : String) (t : ℕ) (r : DelegationRequest)
    → (move st why t r).id ≡ r.id
unfolding move
id-move st why t r = ground arith

id-set_where :
    (id : String) (e st : DelegationStatus) (why : String) (t : ℕ) (j : String)
    (r : DelegationRequest)
    → ((set_where (has_status id e) (move st why t) r).id == j) ≡ (r.id == j)
id-set_where id e st why t j r = elim (Bool-cases (has_status id e r)) [
  | inl h ↦ rw (h, id-move)
  | inr h ↦ rw h
]

get-has_id :
    (id : String) (s : Store) {r : DelegationRequest} → get id s ≡ some r → (r.id == id) ≡ true
unfolding get
get-has_id id s found = find_test (λ q. q.id == id) s.requests found

pub get_id : (id : String) (s : Store) {r : DelegationRequest} → get id s ≡ some r → r.id ≡ id
get_id id s {r} found = (eq_iff r.id id).0 (get-has_id id s found)

any-has_status :
    (id : String) (e : DelegationStatus) (s : Store) {r : DelegationRequest}
    → get id s ≡ some r
    → has_status id e r ≡ true
    → any (has_status id e) s.requests ≡ true
unfolding get
any-has_status id e s found own =
    any_of_find (λ q. q.id == id) (has_status id e) s.requests found own

module _ (id : String) (e st : DelegationStatus) (why : String) (t : ℕ) (s : Store) where
  -- After a transition every lookup by id finds the row that the update made of the old one.
  pub get-transition :
      (j : String)
      → get j (transition id e st why t s).1
        ≡ map_option (set_where (has_status id e) (move st why t)) (get j s)
  unfolding get transition update_where
  get-transition j =
      find-map (λ r. r.id == j) (set_where (has_status id e) (move st why t))
        (id-set_where id e st why t j) s.requests

  -- A row that is in the expected status is moved, and the call says so.
  pub transition_moves :
      (r : DelegationRequest)
      → get id s ≡ some r
      → r.status ≡ e
      → ((transition id e st why t s).0 ≡ ok true)
        × (get id (transition id e st why t s).1 ≡ some (move st why t r))
  unfolding transition
  transition_moves r found h =
      let own : has_status id e r ≡ true = rw (get-has_id id s found) (rw h (eq_status_refl e)) in
      (ap ok (any-has_status id e s found own), get-transition id ∙ rw (found, own))
