-- ===== src/Pairing/Login.antt =====
-- A completed pairing: what it has checked, what it leaves, and that its credential is accepted.
use soulmate.Prelude.{
  ℕ, String, ◌≡◌, refl, sym, ap, ◌∙◌, true, false, none, some, is_none, [], ◌∷◌, ◌++◌, arith, ◌==◌,
  eq_iff, eq_refl, any, find, find-map, any_of_find, find-append_none, find-none_of_any,
  update_where, set_where, inl, inr, Bool-cases, Option-cases, leb,
}
use soulmate.Exec.{Result, ok, err, ok-ne-err, ok_inj}
use soulmate.Text.{is_empty, is_blank, has_char}
use soulmate.Text.Partition.{has_char-append, is_empty-append}
use soulmate.Pairing.Records.{PairingToken, PairedDevice, device_ok}
use soulmate.Pairing.Service.{
  Store, Error, empty_name, invalid_token, token_used, token_expired, value_error, integrity_error,
  get_by_hash, consume, claimable, claimed, add_device, device_conflict, get_device, touch,
  format_credential, parse_credential, new_device, redeem, complete, authenticate,
}
use soulmate.Pairing.Credential.{parse-format}

module _ (hash_secret : String → String) (profile_id secret name platform : String) (now : ℕ)
    (device_secret hex : String) (s : Store) where
  abbrev device : PairedDevice
  device = new_device hash_secret profile_id name platform now device_secret hex

  abbrev result : Result Error (PairedDevice × String) × Store
  result = complete hash_secret profile_id secret name platform now device_secret hex s

  -- The store after a pairing with the token `t`.
  abbrev paired : PairingToken → Store
  paired t = record s {
    tokens = update_where (claimable t.id) (claimed device.id now) s.tokens;
    devices = s.devices ++ device ∷ [];
  }

  -- What a successful pairing has checked.
  pub record Completed : Type 0 where
    pub token : PairingToken
    pub found : get_by_hash (hash_secret secret) s ≡ some token
    pub own : token.profile_id ≡ profile_id
    pub unused : is_none token.consumed_at ≡ true
    pub early : leb token.expires_at now ≡ false
    pub valid : device_ok device ≡ true
    pub fresh : any (device_conflict device) s.devices ≡ false
    pub outcome : result ≡ (ok (device, format_credential device.id device_secret), paired token)

  complete_blank : is_blank name ≡ true → result ≡ (err empty_name, s)
  unfolding complete
  complete_blank blank = rw blank

  complete_unknown :
      is_blank name ≡ false
      → get_by_hash (hash_secret secret) s ≡ none
      → result ≡ (err invalid_token, s)
  unfolding complete
  complete_unknown named absent = rw (named, absent)

  module _ (t : PairingToken) (named : is_blank name ≡ false)
      (found : get_by_hash (hash_secret secret) s ≡ some t) where
    complete_foreign : (t.profile_id == profile_id) ≡ false → result ≡ (err invalid_token, s)
    unfolding complete
    complete_foreign foreign = rw (named, found, foreign)

    module _ (own : (t.profile_id == profile_id) ≡ true) where
      complete_used : is_none t.consumed_at ≡ false → result ≡ (err token_used, s)
      unfolding complete
      complete_used used = elim (Option-cases t.consumed_at) [
        | inl absent ↦ absurd (cc (rw absent at used))
        | inr (at, e) ↦ rw (named, found, own, e)
      ]

      module _ (unused : t.consumed_at ≡ none) where
        complete_late : leb t.expires_at now ≡ true → result ≡ (err token_expired, s)
        unfolding complete
        complete_late late = rw (named, found, own, unused, late)

        module _ (early : leb t.expires_at now ≡ false) where
          complete_invalid : device_ok device ≡ false → result ≡ (err value_error, s)
          unfolding complete
          complete_invalid invalid = rw (named, found, own, unused, early, invalid)

          complete_redeems :
              device_ok device ≡ true → result ≡ redeem t.id device device_secret now s
          unfolding complete
          complete_redeems valid = rw (named, found, own, unused, early, valid)

          module _ (valid : device_ok device ≡ true) where
            -- the row that was read is one that the claim updates
            claim_won : any (claimable t.id) s.tokens ≡ true
            unfolding get_by_hash
            claim_won =
                any_of_find (λ u. u.token_hash == hash_secret secret) (claimable t.id) s.tokens
                  found (rw (eq_refl t.id, unused) refl)

            complete_clash :
                any (device_conflict device) s.devices ≡ true → result.0 ≡ err integrity_error
            unfolding redeem consume add_device
            complete_clash clash = ap (λ r. r.0) (complete_redeems valid) ∙ rw (claim_won, clash)

            complete_done :
                any (device_conflict device) s.devices ≡ false
                → result ≡ (ok (device, format_credential device.id device_secret), paired t)
            unfolding redeem consume add_device
            complete_done fresh = complete_redeems valid ∙ rw (claim_won, fresh)

  refused :
      {e : Error} {x : PairedDevice × String} {A : Type 0} → result.0 ≡ err e → result.0 ≡ ok x → A
  refused bad good = absurd (ok-ne-err (sym good ∙ bad))

  pub complete-Completed : (x : PairedDevice × String) → result.0 ≡ ok x → Completed
  complete-Completed x h = elim (Bool-cases (is_blank name)) [
    | inl blank ↦ refused (ap (λ r. r.0) (complete_blank blank)) h
    | inr named ↦ elim (Option-cases (get_by_hash (hash_secret secret) s)) [
      | inl absent ↦ refused (ap (λ r. r.0) (complete_unknown named absent)) h
      | inr (t, found) ↦ elim (Bool-cases (t.profile_id == profile_id)) [
        | inr foreign ↦ refused (ap (λ r. r.0) (complete_foreign t named found foreign)) h
        | inl own ↦ elim (Option-cases t.consumed_at) [
          | inr (at, e) ↦ refused (ap (λ r. r.0) (complete_used t named found own (rw e refl))) h
          | inl unused ↦ elim (Bool-cases (leb t.expires_at now)) [
            | inl late ↦ refused (ap (λ r. r.0) (complete_late t named found own unused late)) h
            | inr early ↦ elim (Bool-cases (device_ok device)) [
              | inr invalid ↦
                  refused (ap (λ r. r.0) (complete_invalid t named found own unused early invalid))
                    h
              | inl valid ↦ elim (Bool-cases (any (device_conflict device) s.devices)) [
                | inl clash ↦ refused (complete_clash t named found own unused early valid clash) h
                | inr fresh ↦ record {
                  token = t;
                  found = found;
                  own = (eq_iff t.profile_id profile_id).0 own;
                  unused = rw unused refl;
                  early = early;
                  valid = valid;
                  fresh = fresh;
                  outcome = complete_done t named found own unused early valid fresh;
                }
              ]
            ]
          ]
        ]
      ]
    ]
  ]

  id_has_no_dot : has_char "." hex ≡ false → has_char "." device.id ≡ false
  id_has_no_dot no_dot = has_char-append "." "device_" hex ∙ no_dot

  credential_parses :
      has_char "." hex ≡ false
      → is_empty device_secret ≡ false
      → parse_credential (format_credential device.id device_secret) ≡ ok (device.id, device_secret)
  credential_parses no_dot filled =
      parse-format device.id device_secret (id_has_no_dot no_dot)
        (is_empty-append "device_" hex refl) filled

  module _ (t : PairingToken) (fresh : any (device_conflict device) s.devices ≡ false) where
    enrolled_found : get_device device.id (paired t) ≡ some device
    unfolding get_device find
    enrolled_found =
        find-append_none (λ d. d.id == device.id) s.devices (device ∷ [])
          (find-none_of_any (λ d. d.id == device.id) (device_conflict device)
            (λ e off. ground arith) s.devices fresh)
        ∙ rw (eq_refl device.id) refl

    enrolled_known : any (λ d. d.id == device.id) (paired t).devices ≡ true
    unfolding get_device
    enrolled_known =
        any_of_find (λ d. d.id == device.id) (λ d. d.id == device.id) (paired t).devices
          enrolled_found (eq_refl device.id)

    enrolled_accepted :
        (later : ℕ)
        → has_char "." hex ≡ false
        → is_empty device_secret ≡ false
        → (authenticate hash_secret (format_credential device.id device_secret) later (paired t)).0
          ≡ ok device
    unfolding authenticate touch
    enrolled_accepted later no_dot filled = rw (
      credential_parses no_dot filled,
      enrolled_found,
      eq_refl (hash_secret device_secret),
      enrolled_known,
    )

  -- The credential that a pairing returns is accepted from the store that it leaves: the device is
  -- authenticated by it, if the hexadecimal digits of its id have no dot and the secret is not
  -- empty.
  pub authenticate_enrolled :
      (x : PairedDevice × String) (later : ℕ)
      → result.0 ≡ ok x
      → has_char "." hex ≡ false
      → is_empty device_secret ≡ false
      → (authenticate hash_secret x.1 later result.1).0 ≡ ok x.0
  authenticate_enrolled x later done no_dot filled =
      let c = complete-Completed x done in
      let same : (device, format_credential device.id device_secret) ≡ x =
        ok_inj (ap (λ r. r.0) (sym c.outcome) ∙ done) in
      rw (c.outcome, ← same) (enrolled_accepted c.token c.fresh later no_dot filled)

  token_consumed :
      (t : PairingToken)
      → get_by_hash (hash_secret secret) s ≡ some t
      → is_none t.consumed_at ≡ true
      → get_by_hash (hash_secret secret) (paired t) ≡ some (claimed device.id now t)
  unfolding get_by_hash update_where
  token_consumed t found unused =
      find-map (λ u. u.token_hash == hash_secret secret)
        (set_where (claimable t.id) (claimed device.id now))
        (λ u. elim (Bool-cases (claimable t.id u)) [ inl on ↦ rw on refl | inr off ↦ rw off refl ])
        s.tokens
      ∙ rw (found, eq_refl t.id, unused) refl

  -- The secret of a token that has paired a device is refused as used, whatever the name, provided
  -- it is not blank, the platform and the time it is sent again with, and the store stays as it is.
  pub complete_again :
      (x : PairedDevice × String) (name' platform' device_secret' hex' : String) (now' : ℕ)
      → is_blank name' ≡ false
      → result.0 ≡ ok x
      → complete hash_secret profile_id secret name' platform' now' device_secret' hex' result.1
        ≡ (err token_used, result.1)
  unfolding complete
  complete_again x name' platform' device_secret' hex' now' named done =
      let c = complete-Completed x done in
      rw (c.outcome, named, token_consumed c.token c.found c.unused, c.own, eq_refl profile_id) refl
