-- ===== src/External/Issue.antt =====
-- An issued API key is accepted.
use Prim.Native.String.{◌++◌ as append}
use soulmate.Prelude.{
  ℕ, String, ◌≡◌, refl, sym, ap, ◌∙◌, Bool, true, false, ◌||◌, none, some, [], ◌∷◌, ◌++◌, ◌==◌,
  eq_iff, eq_refl, any, find, find_test, find-append_none, find-none_of_any, inl, inr, Bool-cases,
  Option-cases, arith,
}
use soulmate.Exec.{Result, ok, err, Result-cases, ok_inj, ok-ne-err}
use soulmate.Text.{is_empty, has_char}
use soulmate.Text.Partition.{has_char-append, is_empty-append}
use soulmate.External.Records.{ServiceIdentity, identity_active, ApiCredential, credential_ok}
use soulmate.External.Store.{
  Store, Error, IdentityRow, identity_row, to_domain, credential_row, get_identity, add_credential,
  identity_inactive, value_error, integrity_error,
}
use soulmate.External.Service.{
  IssuedApiCredential, format_api_key, active_identity, issue_credential, authenticate,
}
use soulmate.External.ApiKey.{parse_api_key-format_api_key}
use soulmate.External.Admission.{admitted}
use soulmate.External.Revocation.{read_keeps}

module _ (hash_api_secret : String → String) (identity_id secret hex : String) (now : ℕ)
    (s : Store) where
  abbrev issued : Result Error IssuedApiCredential × Store
  issued = issue_credential hash_api_secret identity_id now secret hex s

  abbrev fresh_credential : ServiceIdentity → ApiCredential
  fresh_credential i = record {
    id = append "credential_" hex;
    service_identity_id = i.id;
    secret_hash = hash_api_secret secret;
    created_at = now;
    last_used_at = none;
    revoked_at = none;
  }

  abbrev handed_out : ServiceIdentity → IssuedApiCredential
  handed_out i = record {
    identity = i;
    credential = fresh_credential i;
    api_key = format_api_key (append "credential_" hex) secret;
  }

  abbrev with_credential : ServiceIdentity → Store
  with_credential i = record s { credentials = s.credentials ++ fresh_credential i ∷ [] }

  abbrev clashes : ServiceIdentity → Bool
  clashes i =
      any (λ r. r.id == append "credential_" hex || r.secret_hash == hash_api_secret secret)
        s.credentials

  no_identity : identity_row identity_id s ≡ none → issued.0 ≡ err identity_inactive
  unfolding issue_credential active_identity get_identity
  no_identity absent = rw absent

  module _ (row : IdentityRow) (identified : identity_row identity_id s ≡ some row) where
    unreadable : {e : Error} → to_domain s row ≡ err e → issued.0 ≡ err e
    unfolding issue_credential active_identity get_identity
    unreadable bad = rw (identified, bad)

    module _ (i : ServiceIdentity) (read : to_domain s row ≡ ok i) where
      inactive : identity_active i ≡ false → issued.0 ≡ err identity_inactive
      unfolding issue_credential active_identity get_identity
      inactive off = rw (identified, read, off)

      module _ (on : identity_active i ≡ true) where
        invalid : credential_ok (fresh_credential i) ≡ false → issued.0 ≡ err value_error
        unfolding issue_credential active_identity get_identity
        invalid bad = rw (identified, read, on, bad)

        module _ (sound : credential_ok (fresh_credential i) ≡ true) where
          clash : clashes i ≡ true → issued.0 ≡ err integrity_error
          unfolding issue_credential active_identity get_identity add_credential
          clash taken = rw (identified, read, on, sound, taken)

          issues : clashes i ≡ false → issued ≡ (ok (handed_out i), with_credential i)
          unfolding issue_credential active_identity get_identity add_credential
          issues new = rw (identified, read, on, sound, new)

  -- What an issue that returns has checked and left.
  pub record Issued (x : IssuedApiCredential) : Type 0 where
    pub row : IdentityRow
    pub identity : ServiceIdentity
    pub identified : identity_row identity_id s ≡ some row
    pub read : to_domain s row ≡ ok identity
    pub active : identity_active identity ≡ true
    pub sound : credential_ok (fresh_credential identity) ≡ true
    pub new : clashes identity ≡ false
    pub outcome : issued ≡ (ok (handed_out identity), with_credential identity)
    pub same : handed_out identity ≡ x

  dead : {e : Error} {x : IssuedApiCredential} {A : Type 0} → issued.0 ≡ err e → issued.0 ≡ ok x → A
  dead bad good = absurd (ok-ne-err (sym good ∙ bad))

  issue_credential-Issued : (x : IssuedApiCredential) → issued.0 ≡ ok x → Issued x
  issue_credential-Issued x h = elim (Option-cases (identity_row identity_id s)) [
    | inl absent ↦ dead (no_identity absent) h
    | inr (row, identified) ↦ elim (Result-cases (to_domain s row)) [
      | inl (e, bad) ↦ dead (unreadable row identified bad) h
      | inr (i, read) ↦ elim (Bool-cases (identity_active i)) [
        | inr off ↦ dead (inactive row identified i read off) h
        | inl on ↦ elim (Bool-cases (credential_ok (fresh_credential i))) [
          | inr bad ↦ dead (invalid row identified i read on bad) h
          | inl sound ↦ elim (Bool-cases (clashes i)) [
            | inl taken ↦ dead (clash row identified i read on sound taken) h
            | inr new ↦
                let out = issues row identified i read on sound new in
                record {
                  row = row;
                  identity = i;
                  identified = identified;
                  read = read;
                  active = on;
                  sound = sound;
                  new = new;
                  outcome = out;
                  same = ok_inj (ap (λ r. r.0) (sym out) ∙ h);
                }
          ]
        ]
      ]
    ]
  ]

  module _ (i : ServiceIdentity) (row : IdentityRow)
      (identified : identity_row identity_id s ≡ some row) (read : to_domain s row ≡ ok i) where
    stored_under : i.id ≡ identity_id
    stored_under =
        (read_keeps s row i read).0
        ∙ (eq_iff row.id identity_id).0
            (find_test (λ r. r.id == identity_id) s.identities identified)

    stored_credential :
        clashes i ≡ false
        → credential_row (append "credential_" hex) (with_credential i) ≡ some (fresh_credential i)
    unfolding find
    stored_credential new =
        find-append_none (λ c. c.id == append "credential_" hex) s.credentials
          (fresh_credential i ∷ [])
          (find-none_of_any (λ c. c.id == append "credential_" hex)
            (λ r. r.id == append "credential_" hex || r.secret_hash == hash_api_secret secret)
            (λ c off. ground arith) s.credentials new)
        ∙ rw (eq_refl (append "credential_" hex)) refl

    read_again : to_domain (with_credential i) row ≡ ok i
    unfolding to_domain
    read_again = read

    handed_out-admitted :
        (later : ℕ)
        → has_char "." hex ≡ false
        → is_empty secret ≡ false
        → clashes i ≡ false
        → credential_ok (fresh_credential i) ≡ true
        → identity_active i ≡ true
        → (authenticate hash_api_secret
            (format_api_key (append "credential_" hex) secret)
            later
            (with_credential i)).0
          ≡ ok (record { identity = i; credential = fresh_credential i })
    handed_out-admitted later dot filled new sound on =
        admitted hash_api_secret (format_api_key (append "credential_" hex) secret) later
          (with_credential i) (append "credential_" hex) secret
          (parse_api_key-format_api_key (append "credential_" hex) secret
            (has_char-append "." "credential_" hex ∙ dot) (is_empty-append "credential_" hex refl)
            filled)
          (fresh_credential i) (stored_credential new) sound
          (rw (eq_refl (hash_api_secret secret)) refl) row
          (ap (λ id. identity_row id s) stored_under ∙ identified) i read_again on

  -- The API key that is issued to an identity is accepted from the store that the issue leaves, as
  -- that identity and with the issued credential, if the hexadecimal digits of its id have no dot
  -- and the secret is not empty.
  pub authenticate-issue_credential :
      (x : IssuedApiCredential) (later : ℕ)
      → issued.0 ≡ ok x
      → has_char "." hex ≡ false
      → is_empty secret ≡ false
      → (authenticate hash_api_secret x.api_key later issued.1).0
        ≡ ok (record { identity = x.identity; credential = x.credential })
  authenticate-issue_credential x later done dot filled =
      let c = issue_credential-Issued x done in
      rw (c.outcome, ← c.same)
        (handed_out-admitted c.identity c.row c.identified c.read later dot filled c.new c.sound
          c.active)
