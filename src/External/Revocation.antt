-- ===== src/External/Revocation.antt =====
-- A revoked identity admits nobody any more.
use soulmate.Prelude.{
  ℕ, String, ◌≡◌, ◌≢◌, refl, sym, ap, subst, ◌∙◌, true, false, not, Option, none, some, is_none,
  List, [], ◌∷◌, ◌++◌, ◌==◌, eq_iff, eq_refl, any, find-map, find_test, find-append_some,
  update_where, set_where, map_option, inl, inr, Bool-cases, Option-cases, false≢true, arith,
  some_inj,
}
use soulmate.Exec.{Result, ok, err, Result-cases, ok_inj, ok-ne-err, passed, continue, or_raise}
use soulmate.External.Records.{ServiceIdentity, identity_ok, ApiCredential}
use soulmate.External.Store.{
  Store, Error, IdentityRow, read_row, optional, value_error, ScopeRow, identity_row, to_domain,
  get_identity, revoke_identity_row, identity_open, identity_closed, identity_not_found,
}
use soulmate.External.Service.{ExternalPrincipal, owned_identity, revoke_identity, authenticate}
use soulmate.External.Admission.{Admitted, authenticate-Admitted}

-- What concurrent transactions do to the tables: new identities, revocations, and any change of
-- the scopes and of the credentials.
pub data Step : Store → Store → Type 0 where
  enrol : (s : Store) (r : IdentityRow) → Step s (record s { identities = s.identities ++ r ∷ [] })
  close : (s : Store) (id : String) (at : ℕ) → Step s (revoke_identity_row id at s).1
  rescope : (s : Store) (rows : List ScopeRow) → Step s (record s { scopes = rows })
  credentials : (s : Store) (cs : List ApiCredential) → Step s (record s { credentials = cs })

pub data Reach (s : Store) : Store → Type 0 where
  here : Reach s s
  next : {t u : Store} → Reach s t → Step t u → Reach s u

-- The identity is stored and revoked.
pub record Closed (id : String) (s : Store) : Type 0 where
  pub row : IdentityRow
  pub found : identity_row id s ≡ some row
  pub revoked : is_none row.revoked_at ≡ false

closed_id :
    (id j : String) (at : ℕ) (r : IdentityRow)
    → ((set_where (identity_open j) (identity_closed at) r).id == id) ≡ (r.id == id)
closed_id id j at r = elim (Bool-cases (identity_open j r)) [
  | inl on ↦ rw on refl
  | inr off ↦ rw off refl
]

closed_again :
    (j : String) (at : ℕ) (r : IdentityRow)
    → is_none r.revoked_at ≡ false
    → is_none (set_where (identity_open j) (identity_closed at) r).revoked_at ≡ false
closed_again j at r h = elim (Bool-cases (identity_open j r)) [
  | inl on ↦ rw on refl
  | inr off ↦ rw off h
]

close_row :
    (id j : String) (at : ℕ) (s : Store) {r : IdentityRow}
    → identity_row id s ≡ some r
    → identity_row id (revoke_identity_row j at s).1
      ≡ some (set_where (identity_open j) (identity_closed at) r)
unfolding revoke_identity_row update_where
close_row id j at s found =
    find-map (λ r. r.id == id) (set_where (identity_open j) (identity_closed at))
      (closed_id id j at) s.identities
    ∙ ap (map_option (set_where (identity_open j) (identity_closed at))) found

Step-Closed : {s t : Store} (id : String) → Step s t → Closed id s → Closed id t
Step-Closed id (enrol s r) h = record {
  row = h.row;
  found = find-append_some (λ e. e.id == id) s.identities (r ∷ []) h.found;
  revoked = h.revoked;
}
Step-Closed id (close s j at) h = record {
  row = set_where (identity_open j) (identity_closed at) h.row;
  found = close_row id j at s h.found;
  revoked = closed_again j at h.row h.revoked;
}
Step-Closed id (rescope s rows) h = record { row = h.row; found = h.found; revoked = h.revoked }
Step-Closed id (credentials s cs) h = record { row = h.row; found = h.found; revoked = h.revoked }

Reach-Closed : {s t : Store} (id : String) → Reach s t → Closed id s → Closed id t
Reach-Closed id here h = h
Reach-Closed id (next r st) h = Step-Closed id st (Reach-Closed id r h)

-- A row is read with its id and its time of revocation.
pub read_keeps :
    (s : Store) (r : IdentityRow) (i : ServiceIdentity)
    → to_domain s r ≡ ok i
    → (i.id ≡ r.id) × (i.revoked_at ≡ r.revoked_at)
unfolding to_domain
read_keeps s r i h =
    let same : read_row s r ≡ i =
      ok_inj (passed value_error (not (identity_ok (read_row s r))) (λ _. ok (read_row s r)) h).1 in
    (
      ap (λ (j : ServiceIdentity). j.id) (sym same),
      ap (λ (j : ServiceIdentity). j.revoked_at) (sym same),
    )

-- Whoever is admitted belongs to an identity that is not closed.
Admitted-not-Closed :
    (hash_api_secret : String → String) (key : String) (now : ℕ) (t : Store) (p : ExternalPrincipal)
    → Admitted hash_api_secret key now t p
    → Closed p.credential.service_identity_id t
    → false ≡ true
Admitted-not-Closed hash_api_secret key now t p a c =
    let same : a.row ≡ c.row = some_inj (sym a.identified ∙ c.found) in
    sym c.revoked
    ∙ ap (λ (r : IdentityRow). is_none r.revoked_at) (sym same)
    ∙ ap is_none (sym (read_keeps t a.row p.identity a.read).1)
    ∙ a.active

store_kept :
    (r : Result Error (Option ServiceIdentity)) (e : Error) (s : Store)
    → (continue r (λ o. or_raise o e) s).1 ≡ s
store_kept (err e') e s = refl
store_kept (ok none) e s = refl
store_kept (ok (some i)) e s = refl

closed_now :
    (now : ℕ) (j : String) (r : IdentityRow)
    → (r.id == j) ≡ true
    → is_none (set_where (identity_open j) (identity_closed now) r).revoked_at ≡ false
closed_now now j r same = elim (Bool-cases (identity_open j r)) [
  | inl on ↦ rw on refl
  | inr off ↦ rw off (ground arith)
]

module _ (profile_id id : String) (now : ℕ) (s : Store) where
  abbrev out : Result Error ServiceIdentity × Store
  out = revoke_identity profile_id id now s

  owned_missing : identity_row id s ≡ none → out ≡ (err identity_not_found, s)
  unfolding revoke_identity owned_identity get_identity
  owned_missing absent = rw absent

  module _ (row : IdentityRow) (found : identity_row id s ≡ some row) where
    unreadable : {e : Error} → to_domain s row ≡ err e → out ≡ (err e, s)
    unfolding revoke_identity owned_identity get_identity
    unreadable bad = rw (found, bad)

    module _ (i : ServiceIdentity) (read : to_domain s row ≡ ok i) where
      foreign : (i.profile_id == profile_id) ≡ false → out ≡ (err identity_not_found, s)
      unfolding revoke_identity owned_identity get_identity
      foreign other = rw (found, read, other)

      module _ (own : (i.profile_id == profile_id) ≡ true) where
        closes : out.1 ≡ (revoke_identity_row i.id now s).1
        unfolding revoke_identity owned_identity get_identity revoke_identity_row
        closes = elim (Bool-cases (any (identity_open i.id) s.identities)) [
          | inl moved ↦
              rw (found, read, own, moved)
                (let after = (revoke_identity_row i.id now s).1 in
                  store_kept (optional (to_domain after) (identity_row i.id after))
                    identity_not_found after)
          | inr still ↦ rw (found, read, own, still) refl
        ]

        closes-Closed : Closed id out.1
        closes-Closed =
            let (same, kept) = read_keeps s row i read in
            let here_id : i.id ≡ id =
              same ∙ (eq_iff row.id id).0 (find_test (λ r. r.id == id) s.identities found) in
            subst (Closed id) (sym closes) (record {
              row = set_where (identity_open i.id) (identity_closed now) row;
              found = close_row id i.id now s found;
              revoked = closed_now now i.id row (ap (λ j. row.id == j) same ∙ eq_refl row.id);
            })

  lost : {e : Error} {i : ServiceIdentity} {A : Type 0} → out ≡ (err e, s) → out.0 ≡ ok i → A
  lost bad good = absurd (ok-ne-err (sym good ∙ ap (λ r. r.0) bad))

  revoke_identity-Closed : (i : ServiceIdentity) → out.0 ≡ ok i → Closed id out.1
  revoke_identity-Closed i h = elim (Option-cases (identity_row id s)) [
    | inl absent ↦ lost (owned_missing absent) h
    | inr (row, found) ↦ elim (Result-cases (to_domain s row)) [
      | inl (e, bad) ↦ lost (unreadable row found bad) h
      | inr (j, read) ↦ elim (Bool-cases (j.profile_id == profile_id)) [
        | inr other ↦ lost (foreign row found j read other) h
        | inl own ↦ closes-Closed row found j read own
      ]
    ]
  ]

  -- Once the owner has revoked an identity, no API key admits anybody as that identity any more,
  -- whatever other clients do to the identities, the scopes and the credentials in between.
  pub revoked_identity_admits_nobody :
      (hash_api_secret : String → String) (key : String) (now' : ℕ) (t : Store)
      (i : ServiceIdentity) (p : ExternalPrincipal)
      → out.0 ≡ ok i
      → Reach out.1 t
      → (authenticate hash_api_secret key now' t).0 ≡ ok p
      → p.credential.service_identity_id ≢ id
  revoked_identity_admits_nobody hash_api_secret key now' t i p done later admitted same =
      false≢true (
        Admitted-not-Closed hash_api_secret key now' t p
          (authenticate-Admitted hash_api_secret key now' t p admitted)
          (subst (λ j. Closed j t) (sym same)
            (Reach-Closed id later (revoke_identity-Closed i done))))
