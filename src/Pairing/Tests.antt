-- ===== src/Pairing/Tests.antt =====
-- Runs of the pairing service on a small store, and the theorems at concrete inputs.
use Prim.Native.String.{◌++◌ as append}
use soulmate.Prelude.{
  String, ◌≡◌, refl, ◌⊎◌, true, some, none, [], ◌∷◌, find, update_where, delete_where, filter,
  sort_by,
}
use soulmate.Exec.{ok, err}
use soulmate.Text.{strip, partition}
use soulmate.Pairing.Records.{PairingToken, token_ok, PairedDevice, device_ok, is_usable_at}
use soulmate.Pairing.Service.{
  Store, token_used, unknown_credential, device_revoked, token_expired, get_by_hash, consume,
  add_device, get_device, redeem, format_credential, parse_credential, touch, revoke, complete,
  authenticate, new_device, issue_token, delete_expired, add_token, list_devices,
}
use soulmate.Pairing.Claim.{redeem_once, here, next, purge}
use soulmate.Pairing.Device
use soulmate.Pairing.Device.{revoked_stays_out, revoke_lem, LockedOut, contact}
use soulmate.Pairing.Login.{complete_again, authenticate_enrolled}

-- A digest for the runs.
abbrev digest : String → String
digest secret = append "sha-" secret

abbrev token : PairingToken
token = record {
  id = "pairing_1";
  profile_id = "owner";
  token_hash = "sha-qr";
  created_at = 10;
  expires_at = 100;
  consumed_at = none;
  device_id = none;
}

abbrev store : Store
store = record { tokens = token ∷ []; devices = [] }

abbrev phone : PairedDevice
phone = new_device digest "owner" " Phone " "ios" 20 "key" "ab"

abbrev login_store : Store
login_store = record store { devices = phone ∷ [] }

completed :
    (complete digest "owner" "qr" " Phone " "ios" 20 "key" "ab" store).0
    ≡ ok (phone, "device_ab.key")
unfolding complete redeem consume add_device get_by_hash find update_where format_credential strip
    token_ok device_ok
completed = refl

too_late : (complete digest "owner" "qr" "Phone" "ios" 100 "key" "ab" store).0 ≡ err token_expired
unfolding complete get_by_hash find strip
too_late = refl

wrong_secret : (authenticate digest "device_ab.kei" 30 login_store).0 ≡ err unknown_credential
unfolding authenticate parse_credential partition get_device find strip
wrong_secret = refl

listed : list_devices "owner" login_store ≡ phone ∷ []
unfolding list_devices filter sort_by
listed = refl

usable_before : is_usable_at 99 token ≡ true
unfolding is_usable_at
usable_before = refl

issued :
    (issue_token digest 50 "owner" 100 "qr" "1" store).1.tokens
    ≡ (record token { created_at = 100; expires_at = 150 }) ∷ []
unfolding issue_token delete_expired delete_where token_ok add_token
issued = refl

redeem_once_example :
    (redeem "pairing_1" phone "other" 40
      (delete_expired 30 (redeem "pairing_1" phone "key" 20 store).1).1).0
    ≡ err token_used
redeem_once_example =
    redeem_once "pairing_1" phone phone "key" "other" 20 40 store
      (delete_expired 30 (redeem "pairing_1" phone "key" 20 store).1).1
      (next here (purge (redeem "pairing_1" phone "key" 20 store).1 30))

complete_again_example :
    let after = (complete digest "owner" "qr" " Phone " "ios" 20 "key" "ab" store).1 in
    complete digest "owner" "qr" "Tablet" "android" 30 "key2" "cd" after ≡ (err token_used, after)
unfolding strip
complete_again_example =
    complete_again digest "owner" "qr" " Phone " "ios" 20 "key" "ab" store (phone, "device_ab.key")
      "Tablet" "android" "key2" "cd" 30 refl completed

authenticate_enrolled_example :
    (authenticate digest "device_ab.key" 50
      (complete digest "owner" "qr" " Phone " "ios" 20 "key" "ab" store).1).0
    ≡ ok phone
authenticate_enrolled_example =
    authenticate_enrolled digest "owner" "qr" " Phone " "ios" 20 "key" "ab" store
      (phone, "device_ab.key") 50 completed refl refl

phone_found : get_device "device_ab" login_store ≡ some phone
unfolding get_device find
phone_found = refl

phone_credential : parse_credential "device_ab.key" ≡ ok ("device_ab", "key")
unfolding parse_credential partition
phone_credential = refl

revoked_stays_out_example :
    let after = (touch "device_ab" 70 (revoke "owner" "device_ab" 60 login_store).1).1 in
    ((authenticate digest "device_ab.key" 80 after).0 ≡ err unknown_credential)
    ⊎ ((authenticate digest "device_ab.key" 80 after).0 ≡ err device_revoked)
revoked_stays_out_example =
    revoked_stays_out digest "device_ab.key" "device_ab" "key" 60 80 login_store
      (touch "device_ab" 70 (revoke "owner" "device_ab" 60 login_store).1).1 phone phone_found
      (Device.next Device.here
        (contact (revoke "owner" "device_ab" 60 login_store).1 "device_ab" 70))
      phone_credential
