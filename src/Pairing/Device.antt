-- ===== src/Pairing/Device.antt =====
-- A revoked device stays locked out.
use soulmate.Prelude.{
  ℕ, String, ◌≡◌, refl, ap, ◌∙◌, Bool, true, false, some, List, [], ◌∷◌, ◌++◌, ◌==◌, eq_refl, any,
  find-map, find_test, any_of_find, find-append_some, update_where, set_where, map_option,
  if◌then◌else◌, inl, inr, ◌⊎◌, Bool-cases,
}
use soulmate.Exec.{ok, err}
use soulmate.Pairing.Records.{PairingToken, PairedDevice, is_active}
use soulmate.Pairing.Service.{
  Store, unknown_credential, device_revoked, get_device, touch, seen, revoke_row, revocable,
  shut_out, revoke, authenticate, parse_credential,
}

-- The device is stored and revoked.
pub record LockedOut (id : String) (s : Store) : Type 0 where
  pub device : PairedDevice
  pub found : get_device id s ≡ some device
  pub revoked : is_active device ≡ false

-- The atomic transactions that touch the devices; those on the tokens leave them alone.
pub data Step : Store → Store → Type 0 where
  enrol : (s : Store) (d : PairedDevice) → Step s (record s { devices = s.devices ++ d ∷ [] })
  contact : (s : Store) (id : String) (at : ℕ) → Step s (touch id at s).1
  shut : (s : Store) (id : String) (at : ℕ) → Step s (revoke_row id at s).1
  tokens : (s : Store) (ts : List PairingToken) → Step s (record s { tokens = ts })

pub data Reach (s : Store) : Store → Type 0 where
  here : Reach s s
  next : {t u : Store} → Reach s t → Step t u → Reach s u

-- A change of some rows that keeps each id and activates nothing.
module _ (id : String) (p : PairedDevice → Bool) (f : PairedDevice → PairedDevice) where
  set_where_id :
      ((d : PairedDevice) → (f d).id ≡ d.id)
      → (d : PairedDevice) → ((set_where p f d).id == id) ≡ (d.id == id)
  set_where_id same d = elim (Bool-cases (p d)) [
    | inl on ↦ rw on (ap (λ j. j == id) (same d))
    | inr off ↦ rw off
  ]

  set_where_shut :
      ((d : PairedDevice) → is_active d ≡ false → is_active (f d) ≡ false)
      → (d : PairedDevice) → is_active d ≡ false
      → is_active (set_where p f d) ≡ false
  set_where_shut quiet d h = elim (Bool-cases (p d)) [
    | inl on ↦ rw on (quiet d h)
    | inr off ↦ rw off h
  ]

  update-LockedOut :
      (s : Store)
      → ((d : PairedDevice) → (f d).id ≡ d.id)
      → ((d : PairedDevice) → is_active d ≡ false → is_active (f d) ≡ false)
      → LockedOut id s
      → LockedOut id (record s { devices = update_where p f s.devices })
  unfolding get_device update_where
  update-LockedOut s same quiet h = record {
    device = set_where p f h.device;
    found =
        find-map (λ d. d.id == id) (set_where p f) (set_where_id same) s.devices
        ∙ ap (map_option (set_where p f)) h.found;
    revoked = set_where_shut quiet h.device h.revoked;
  }

touch-LockedOut :
    (id j : String) (at : ℕ) (s : Store) → LockedOut id s → LockedOut id (touch j at s).1
unfolding touch
touch-LockedOut id j at s h = elim (Bool-cases (any (λ d. d.id == j) s.devices)) [
  | inl on ↦ rw on (update-LockedOut id (λ d. d.id == j) (seen at) s (λ d. refl) (λ d q. q) h)
  | inr off ↦ rw off h
]

Step-LockedOut : {s t : Store} (id : String) → Step s t → LockedOut id s → LockedOut id t
unfolding get_device revoke_row
Step-LockedOut id (enrol s d) h = record {
  device = h.device;
  found = find-append_some (λ e. e.id == id) s.devices (d ∷ []) h.found;
  revoked = h.revoked;
}
Step-LockedOut id (contact s j at) h = touch-LockedOut id j at s h
Step-LockedOut id (shut s j at) h =
    update-LockedOut id (revocable j) (shut_out at) s (λ d. refl) (λ d q. refl) h
Step-LockedOut id (tokens s ts) h = record {
  device = h.device;
  found = h.found;
  revoked = h.revoked;
}

Reach-LockedOut : {s t : Store} (id : String) → Reach s t → LockedOut id s → LockedOut id t
Reach-LockedOut id here h = h
Reach-LockedOut id (next r st) h = Step-LockedOut id st (Reach-LockedOut id r h)

get_device_id :
    (id : String) (s : Store) {d : PairedDevice} → get_device id s ≡ some d → (d.id == id) ≡ true
unfolding get_device
get_device_id id s found = find_test (λ e. e.id == id) s.devices found

any-revocable :
    (id : String) (s : Store) (d : PairedDevice)
    → get_device id s ≡ some d
    → is_active d ≡ true
    → any (revocable id) s.devices ≡ true
unfolding get_device
any-revocable id s d found live =
    any_of_find (λ e. e.id == id) (revocable id) s.devices found
      (rw (get_device_id id s found) live)

-- What a revocation leaves of the device that it names.
module _ (id : String) (now : ℕ) (s : Store) (d : PairedDevice)
    (found : get_device id s ≡ some d) where
  revoked_row : is_active d ≡ true → get_device id (revoke_row id now s).1 ≡ some (shut_out now d)
  unfolding get_device revoke_row update_where
  revoked_row live =
      find-map (λ e. e.id == id) (set_where (revocable id) (shut_out now))
        (set_where_id id (revocable id) (shut_out now) (λ e. refl)) s.devices
      ∙ rw found (rw (get_device_id id s found, live))

  revoke_row_wins : is_active d ≡ true → (revoke_row id now s).0 ≡ ok true
  unfolding revoke_row
  revoke_row_wins live = ap ok (any-revocable id s d found live)

  -- For a stored device, the revocation by its owner returns it as it is stored afterwards, with
  -- the given time if it was active and with its own time otherwise, and leaves it stored and
  -- inactive.
  pub revoke_lem :
      let out = revoke d.profile_id id now s in
      (out.0 ≡ ok (if is_active d then shut_out now d else d)) × LockedOut id out.1
  unfolding revoke
  revoke_lem = elim (Bool-cases (is_active d)) [
    | inl live ↦
        rw (found, eq_refl, live)
          (rw (revoke_row_wins live) (
            rw (revoked_row live)
              (refl, record { device = shut_out now d; found = revoked_row live; revoked = refl })))
    | inr off ↦
        rw (found, eq_refl, off)
          (rw found (refl, record { device = d; found = found; revoked = off }))
  ]

authenticate_locked :
    (hash_secret : String → String) (credential id secret : String) (now : ℕ) (t : Store)
    → parse_credential credential ≡ ok (id, secret)
    → LockedOut id t
    → ((authenticate hash_secret credential now t).0 ≡ err unknown_credential)
      ⊎ ((authenticate hash_secret credential now t).0 ≡ err device_revoked)
unfolding authenticate
authenticate_locked hash_secret credential id secret now t parsed h =
    elim (Bool-cases (hash_secret secret == h.device.credential_hash)) [
      | inl right ↦ inr (rw (parsed, h.found, right, h.revoked))
      | inr wrong ↦ inl (rw (parsed, h.found, wrong))
    ]

-- After the owner has revoked a device, no credential that names it is accepted any more, whatever
-- other clients have done since.
pub revoked_stays_out :
    (hash_secret : String → String) (credential id secret : String) (now now' : ℕ) (s t : Store)
    (d : PairedDevice)
    → get_device id s ≡ some d
    → Reach (revoke d.profile_id id now s).1 t
    → parse_credential credential ≡ ok (id, secret)
    → ((authenticate hash_secret credential now' t).0 ≡ err unknown_credential)
      ⊎ ((authenticate hash_secret credential now' t).0 ≡ err device_revoked)
revoked_stays_out hash_secret credential id secret now now' s t d found later parsed =
    authenticate_locked hash_secret credential id secret now' t parsed
      (Reach-LockedOut id later (revoke_lem id now s d found).1)
