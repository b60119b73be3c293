-- ===== src/Delegation/Fate.antt =====
-- What no interleaving of clients can undo.
use soulmate.Prelude.{
  ℕ, String, ◌≡◌, refl, ap, ◌∙◌, true, false, some, [], ◌∷◌, arith, ◌==◌, any, find, find-map,
  find-append_some, update_where, set_where, map_option, inl, inr, Bool-cases,
}
use soulmate.Delegation.Records.{DelegationRequest, DelegationStatus, eq_status}
use soulmate.Delegation.Store.{
  Store, get, remove, move, has_status, names_policy, clear_policy, owned_policy,
}
use soulmate.Delegation.Engine.{is_open}
use soulmate.Delegation.Laws.{get-transition}
use soulmate.Delegation.Steps.{
  Allowed, approve, reject_pending, reject_approved, finish, expire_pending, expire_approved, Step,
  submit, change, unlink, write_policies, other, Reach, here, next, insert,
}

-- `r` is `q`, but for a policy that the owner has removed since.
abbrev SameFate : DelegationRequest → DelegationRequest → Type 0
SameFate q r = r ≡ record q { policy_id = r.policy_id }

-- Where the request `q` stands in a store.
abbrev pub Keeps : String → DelegationRequest → Store → Type 0
Keeps id q t = (r : DelegationRequest) × (get id t ≡ some r) × SameFate q r

SameFate-status : (q r : DelegationRequest) → SameFate q r → r.status ≡ q.status
SameFate-status q r h = ap (λ x. x.status) h

Allowed-from_open : {e st : DelegationStatus} → Allowed e st → is_open e ≡ true
Allowed-from_open approve = refl
Allowed-from_open reject_pending = refl
Allowed-from_open reject_approved = refl
Allowed-from_open finish = refl
Allowed-from_open expire_pending = refl
Allowed-from_open expire_approved = refl

closed-ne-open :
    (a e : DelegationStatus) → is_open a ≡ false → is_open e ≡ true → eq_status a e ≡ false
closed-ne-open a e h k = ground arith

get-insert :
    (id : String) (r : DelegationRequest) (s : Store) {q : DelegationRequest}
    → get id s ≡ some q
    → get id (insert r s) ≡ some q
unfolding get
get-insert id r s found = find-append_some (λ x. x.id == id) s.requests (r ∷ []) found

SameFate-trans : (q r x : DelegationRequest) → SameFate q r → SameFate r x → SameFate q x
SameFate-trans q r x h k =
    k
    ∙ ap {A = DelegationRequest} {B = DelegationRequest} (λ y. record y { policy_id = x.policy_id })
        h

SameFate-clear :
    (policy_id : String) (q : DelegationRequest)
    → SameFate q (set_where (names_policy policy_id) clear_policy q)
SameFate-clear policy_id q = elim (Bool-cases (names_policy policy_id q)) [
  | inl e ↦ rw e
  | inr e ↦ rw e
]

id-clear :
    (policy_id id : String) (r : DelegationRequest)
    → ((set_where (names_policy policy_id) clear_policy r).id == id) ≡ (r.id == id)
id-clear policy_id id r = elim (Bool-cases (names_policy policy_id r)) [
  | inl e ↦ rw e
  | inr e ↦ rw e
]

get-remove :
    (profile_id policy_id id : String) (s : Store) {q : DelegationRequest}
    → get id s ≡ some q
    → Keeps id q (remove profile_id policy_id s).1
unfolding get remove update_where
get-remove profile_id policy_id id s {q} found =
    elim (Bool-cases (any (owned_policy profile_id policy_id) s.policies)) [
      | inl e ↦ rw e (
        set_where (names_policy policy_id) clear_policy q,
        find-map (λ r. r.id == id) (set_where (names_policy policy_id) clear_policy)
              (id-clear policy_id id) s.requests
            ∙ ap (map_option (set_where (names_policy policy_id) clear_policy)) found,
        SameFate-clear policy_id q,
      )
      | inr e ↦ rw e (q, found, refl)
    ]

get-other : (id : String) (s t : Store) → t.requests ≡ s.requests → get id t ≡ get id s
unfolding get
get-other id s t e = ap (find (λ r. r.id == id)) e

-- A closed request is in no status that a transition expects.
set_where-closed :
    (j : String) {e st : DelegationStatus} (why : String) (t : ℕ) (q x : DelegationRequest)
    → is_open q.status ≡ false
    → Allowed e st
    → SameFate q x
    → set_where (has_status j e) (move st why t) x ≡ x
set_where-closed j {e} why t q x closed a same =
    let off : has_status j e x ≡ false =
      ground (arith, closed-ne-open x.status e, Allowed-from_open a, SameFate-status q x same) in
    rw off

Step-Keeps :
    {s t : Store} (id : String) (q : DelegationRequest)
    → is_open q.status ≡ false
    → Step s t
    → Keeps id q s
    → Keeps id q t
Step-Keeps id q closed (submit s r fresh new) (x, found, same) = (x, get-insert id r s found, same)
Step-Keeps id q closed (change s j {e} {st} a why t) (x, found, same) = (
  x,
  get-transition j e st why t s id
      ∙ ap (map_option (set_where (has_status j e) (move st why t))) found
      ∙ ap some (set_where-closed j why t q x closed a same),
  same,
)
Step-Keeps id q closed (unlink s profile_id policy_id) (x, found, same) =
    let (y, found', same') = get-remove profile_id policy_id id s found in
    (y, found', SameFate-trans q x y same same')
Step-Keeps id q closed (write_policies s ps safe) (x, found, same) =
    (x, get-other id s (record s { policies = ps }) refl ∙ found, same)
Step-Keeps id q closed (other s t e f) (x, found, same) = (x, get-other id s t e ∙ found, same)

-- A request that is rejected, completed or expired is, after any sequence of the atomic
-- transactions of concurrent clients, still found under its id and unchanged, except for the link
-- to a policy that has been removed.
pub closed_is_final :
    {s t : Store} (id : String) (q : DelegationRequest)
    → Reach s t
    → get id s ≡ some q
    → is_open q.status ≡ false
    → Keeps id q t
closed_is_final id q here found closed = (q, found, refl)
closed_is_final id q (next r st) found closed =
    Step-Keeps id q closed st (closed_is_final id q r found closed)
