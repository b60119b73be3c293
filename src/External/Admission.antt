-- ===== src/External/Admission.antt =====
-- Who is admitted by an API key.
use soulmate.Prelude.{
  ℕ, String, ◌≡◌, sym, subst, ◌∙◌, true, false, none, some, ◌==◌, eq_iff, eq_refl, any, any_of_find,
  inl, inr, Bool-cases, Option-cases, arith,
}
use soulmate.Exec.{Result, ok, err, Result-cases, ok_inj, ok-ne-err}
use soulmate.External.Records.{
  ServiceIdentity, identity_active, ApiCredential, credential_ok, credential_active,
}
use soulmate.External.Store.{
  Store, Error, IdentityRow, identity_row, to_domain, credential_row, read_credential,
  get_credential, get_identity, touch_credential, unrecognized_credential, identity_inactive,
  value_error,
}
use soulmate.External.Service.{
  ExternalPrincipal, parse_api_key, active_identity, credential_refused, authenticate,
}

module _ (hash_api_secret : String → String) (key : String) (now : ℕ) (s : Store) where
  -- What an authentication that returns this principal has checked.
  pub record Admitted (p : ExternalPrincipal) : Type 0 where
    pub credential_id : String
    pub secret : String
    pub row : IdentityRow
    pub parsed : parse_api_key key ≡ ok (credential_id, secret)
    pub stored : credential_row credential_id s ≡ some p.credential
    pub live : credential_active p.credential ≡ true
    pub right : hash_api_secret secret ≡ p.credential.secret_hash
    pub identified : identity_row p.credential.service_identity_id s ≡ some row
    pub read : to_domain s row ≡ ok p.identity
    pub active : identity_active p.identity ≡ true

  abbrev answer : Result Error ExternalPrincipal × Store
  answer = authenticate hash_api_secret key now s

  malformed : {e : Error} → parse_api_key key ≡ err e → answer.0 ≡ err e
  unfolding authenticate
  malformed bad = rw bad

  module _ (credential_id secret : String)
      (parsed : parse_api_key key ≡ ok (credential_id, secret)) where
    missing : credential_row credential_id s ≡ none → answer.0 ≡ err unrecognized_credential
    unfolding authenticate get_credential
    missing absent = rw (parsed, absent)

    module _ (c : ApiCredential) (stored : credential_row credential_id s ≡ some c) where
      unreadable : credential_ok c ≡ false → answer.0 ≡ err value_error
      unfolding authenticate get_credential read_credential
      unreadable bad = rw (parsed, stored, bad)

      module _ (sound : credential_ok c ≡ true) where
        refused :
            credential_refused hash_api_secret c secret ≡ true
            → answer.0 ≡ err unrecognized_credential
        unfolding authenticate get_credential read_credential
        refused bad = rw (parsed, stored, sound, bad)

        module _ (accepted : credential_refused hash_api_secret c secret ≡ false) where
          anonymous : identity_row c.service_identity_id s ≡ none → answer.0 ≡ err identity_inactive
          unfolding authenticate get_credential read_credential active_identity get_identity
          anonymous absent = rw (parsed, stored, sound, accepted, absent)

          module _ (row : IdentityRow)
              (identified : identity_row c.service_identity_id s ≡ some row) where
            garbled : {e : Error} → to_domain s row ≡ err e → answer.0 ≡ err e
            unfolding authenticate get_credential read_credential active_identity get_identity
            garbled bad = rw (parsed, stored, sound, accepted, identified, bad)

            module _ (i : ServiceIdentity) (read : to_domain s row ≡ ok i) where
              inactive : identity_active i ≡ false → answer.0 ≡ err identity_inactive
              unfolding authenticate get_credential read_credential active_identity get_identity
              inactive off = rw (parsed, stored, sound, accepted, identified, read, off)

              stored_again : any (λ d. d.id == c.id) s.credentials ≡ true
              stored_again =
                  any_of_find (λ d. d.id == credential_id) (λ d. d.id == c.id) s.credentials stored
                    (eq_refl c.id)

              pub admitted :
                  identity_active i ≡ true → answer.0 ≡ ok (record { identity = i; credential = c })
              unfolding authenticate get_credential read_credential active_identity get_identity
                  touch_credential
              admitted on = rw (parsed, stored, sound, accepted, identified, read, on, stored_again)

  dead : {e : Error} {p : ExternalPrincipal} {A : Type 0} → answer.0 ≡ err e → answer.0 ≡ ok p → A
  dead bad good = absurd (ok-ne-err (sym good ∙ bad))

  -- A test that a credential passes.
  accepted-live :
      (c : ApiCredential) (secret : String)
      → credential_refused hash_api_secret c secret ≡ false
      → (credential_active c ≡ true) × (hash_api_secret secret ≡ c.secret_hash)
  accepted-live c secret h =
      (ground arith, (eq_iff (hash_api_secret secret) c.secret_hash).0 (ground arith))

  module _ (credential_id secret : String) (parsed : parse_api_key key ≡ ok (credential_id, secret))
      (c : ApiCredential) (stored : credential_row credential_id s ≡ some c) (p : ExternalPrincipal)
      (h : answer.0 ≡ ok p) where
    identity-Admitted :
        credential_ok c ≡ true → credential_refused hash_api_secret c secret ≡ false → Admitted p
    identity-Admitted sound accepted = elim (Option-cases (identity_row c.service_identity_id s)) [
      | inl absent ↦ dead (anonymous credential_id secret parsed c stored sound accepted absent) h
      | inr (row, identified) ↦ elim (Result-cases (to_domain s row)) [
        | inl (e, bad) ↦
            dead (garbled credential_id secret parsed c stored sound accepted row identified bad) h
        | inr (i, read) ↦ elim (Bool-cases (identity_active i)) [
          | inr off ↦
              dead
                (inactive credential_id secret parsed c stored sound accepted row identified i read
                  off)
                h
          | inl on ↦
              let (live, right) = accepted-live c secret accepted in
              let same : record { identity = i; credential = c } ≡ p = ok_inj (
                sym (
                  admitted credential_id secret parsed c stored sound accepted row identified i read
                    on)
                ∙ h) in
              subst Admitted same (record {
                credential_id = credential_id;
                secret = secret;
                row = row;
                parsed = parsed;
                stored = stored;
                live = live;
                right = right;
                identified = identified;
                read = read;
                active = on;
              })
        ]
      ]
    ]

    credential-Admitted : Admitted p
    credential-Admitted = elim (Bool-cases (credential_ok c)) [
      | inr bad ↦ dead (unreadable credential_id secret parsed c stored bad) h
      | inl sound ↦ elim (Bool-cases (credential_refused hash_api_secret c secret)) [
        | inl bad ↦ dead (refused credential_id secret parsed c stored sound bad) h
        | inr accepted ↦ identity-Admitted sound accepted
      ]
    ]

  -- An API key is accepted only if it names a stored credential that is active and has the digest
  -- of its secret, and that belongs to a stored identity which is active; these two are returned.
  pub authenticate-Admitted : (p : ExternalPrincipal) → answer.0 ≡ ok p → Admitted p
  authenticate-Admitted p h = elim (Result-cases (parse_api_key key)) [
    | inl (e, bad) ↦ dead (malformed bad) h
    | inr ((credential_id, secret), parsed) ↦ elim (Option-cases (credential_row credential_id s)) [
      | inl absent ↦ dead (missing credential_id secret parsed absent) h
      | inr (c, stored) ↦ credential-Admitted credential_id secret parsed c stored p h
    ]
  ]
