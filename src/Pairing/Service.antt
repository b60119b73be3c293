-- ===== src/Pairing/Service.antt =====
-- `DevicePairingService` and the two repositories under it. The digest is a parameter of the
-- model; `secret` and `hex` are what the service's factories return in a call.
use Prim.Native.String.{◌++◌ as append}
use Prim.Native.String.{compare}
use text.Mathlib.Text.{is_lt}
use soulmate.Prelude.{
  ℕ, ◌+◌, ◌*◌, String, Bool, true, not, ◌&&◌, ◌||◌, Option, none, some, is_none, is_some, List, [],
  ◌∷◌, ◌++◌, ◌==◌, any, find, filter, sort_by, update_where, delete_where, length, if◌then◌else◌,
  ltb, leb, eqb,
}
use soulmate.Exec.{Result, ok, err, Exec, pure, raise_if, gets, lift, or_raise, modify, ◌>>=◌, ◌>>◌}
use soulmate.Text.{strip, is_empty, is_blank, partition}
use soulmate.Pairing.Records.{PairingToken, token_ok, PairedDevice, device_ok, is_active}

pub record Store : Type 0 where
  pub tokens : List PairingToken
  pub devices : List PairedDevice

-- `PairingError`, a constructor for each message, and the other exceptions.
pub data Error : Type 0 where
  empty_name invalid_token token_used token_expired malformed_credential unknown_credential : Error
  device_revoked key_error value_error integrity_error : Error

abbrev pub Action : Type 0 → Type 0
Action A = Exec Error Store A

-- `format_credential`, with the separator "."
unfoldable pub format_credential : String → String → String
format_credential device_id secret = append device_id (String.◌∷◌ "." secret)

-- `parse_credential`
unfoldable pub parse_credential : String → Result Error (String × String)
parse_credential credential =
    let (device_id, separator, secret) = partition "." credential in
    if is_empty separator || is_empty device_id || is_empty secret
    then err malformed_credential
    else ok (device_id, secret)

-- The primary key and the unique column `token_hash`.
abbrev token_conflict : PairingToken → PairingToken → Bool
token_conflict t u = u.id == t.id || u.token_hash == t.token_hash

-- `SqlitePairingTokenRepository.add`
unfoldable pub add_token : PairingToken → Action Unit
add_token t = do
  stored ← gets (λ s. s.tokens)
  raise_if (any (token_conflict t) stored) integrity_error
  modify (λ s. record s { tokens = s.tokens ++ t ∷ [] })

-- `SqlitePairingTokenRepository.get_by_hash`
unfoldable pub get_by_hash : String → Store → Option PairingToken
get_by_hash token_hash s = find (λ t. t.token_hash == token_hash) s.tokens

abbrev pub claimable : String → PairingToken → Bool
claimable token_id t = t.id == token_id && is_none t.consumed_at

abbrev pub claimed : String → ℕ → PairingToken → PairingToken
claimed device_id consumed_at t = record t {
  consumed_at = some consumed_at;
  device_id = some device_id;
}

-- `SqlitePairingTokenRepository.consume`
unfoldable pub consume : String → String → ℕ → Action Bool
consume token_id device_id consumed_at s = (
  ok (any (claimable token_id) s.tokens),
  record s { tokens = update_where (claimable token_id) (claimed device_id consumed_at) s.tokens },
)

-- `SqlitePairingTokenRepository.delete_expired`
unfoldable pub delete_expired : ℕ → Action ℕ
delete_expired before s = (
  ok (length (filter (λ t. leb t.expires_at before) s.tokens)),
  record s { tokens = delete_where (λ t. leb t.expires_at before) s.tokens },
)

-- The primary key and the unique column `credential_hash`.
abbrev pub device_conflict : PairedDevice → PairedDevice → Bool
device_conflict d e = e.id == d.id || e.credential_hash == d.credential_hash

-- `SqlitePairedDeviceRepository.add`
unfoldable pub add_device : PairedDevice → Action Unit
add_device d = do
  stored ← gets (λ s. s.devices)
  raise_if (any (device_conflict d) stored) integrity_error
  modify (λ s. record s { devices = s.devices ++ d ∷ [] })

-- `SqlitePairedDeviceRepository.get`
unfoldable pub get_device : String → Store → Option PairedDevice
get_device device_id s = find (λ d. d.id == device_id) s.devices

-- `SqlitePairedDeviceRepository.list_for_profile`
unfoldable pub list_devices : String → Store → List PairedDevice
list_devices profile_id s =
    sort_by
      (λ a b.
        ltb b.created_at a.created_at
        || (eqb a.created_at b.created_at && is_lt (compare b.id a.id)))
      (filter (λ d. d.profile_id == profile_id) s.devices)

abbrev pub seen : ℕ → PairedDevice → PairedDevice
seen at d = record d { last_seen_at = some at }

-- `SqlitePairedDeviceRepository.touch`
unfoldable pub touch : String → ℕ → Action Unit
touch device_id last_seen_at s =
    if any (λ d. d.id == device_id) s.devices
    then (
      ok tt,
      record s { devices = update_where (λ d. d.id == device_id) (seen last_seen_at) s.devices },
    )
    else (err key_error, s)

abbrev pub revocable : String → PairedDevice → Bool
revocable device_id d = d.id == device_id && is_none d.revoked_at

abbrev pub shut_out : ℕ → PairedDevice → PairedDevice
shut_out at d = record d { revoked_at = some at }

-- `SqlitePairedDeviceRepository.revoke`
unfoldable pub revoke_row : String → ℕ → Action Bool
revoke_row device_id revoked_at s = (
  ok (any (revocable device_id) s.devices),
  record s { devices = update_where (revocable device_id) (shut_out revoked_at) s.devices },
)

-- `DEFAULT_PAIRING_TOKEN_TTL`, five minutes in microseconds
abbrev default_pairing_token_ttl : ℕ
default_pairing_token_ttl = 5 * 60 * 1000000

abbrev revoke_if_active : String → ℕ → PairedDevice → Action Unit
revoke_if_active device_id now device = do
  moved ← if is_active device then revoke_row device_id now else pure true
  raise_if (not moved) key_error

unfoldable pub revoke : String → String → ℕ → Action PairedDevice
revoke profile_id device_id now = do
  device ← or_raise (← gets (get_device device_id)) key_error
  raise_if (not (device.profile_id == profile_id)) key_error
  revoke_if_active device_id now device
  or_raise (← gets (get_device device_id)) key_error

-- `complete` from the claim of the token on, which is the part that another client can race
unfoldable pub redeem : String → PairedDevice → String → ℕ → Action (PairedDevice × String)
redeem token_id device device_secret now = do
  won ← consume token_id device.id now
  raise_if (not won) token_used
  add_device device
  pure (device, format_credential device.id device_secret)

module _ (hash_secret : String → String) where
  -- `verify_secret`
  abbrev verify_secret : String → String → Bool
  verify_secret secret digest = hash_secret secret == digest

  unfoldable pub issue_token : ℕ → String → ℕ → String → String → Action (PairingToken × String)
  issue_token ttl profile_id now secret hex = do
    delete_expired now
    let token : PairingToken = record {
      id = append "pairing_" hex;
      profile_id = profile_id;
      token_hash = hash_secret secret;
      created_at = now;
      expires_at = now + ttl;
      consumed_at = none;
      device_id = none;
    }
    raise_if (not (token_ok token)) value_error
    add_token token
    pure (token, secret)

  -- The device that `complete` enrols.
  abbrev pub new_device : String → String → String → ℕ → String → String → PairedDevice
  new_device profile_id name platform now device_secret hex = record {
    id = append "device_" hex;
    profile_id = profile_id;
    name = strip name;
    platform = platform;
    credential_hash = hash_secret device_secret;
    created_at = now;
    last_seen_at = none;
    revoked_at = none;
  }

  unfoldable pub complete :
      String → String → String → String → ℕ → String → String → Action (PairedDevice × String)
  complete profile_id secret name platform now device_secret hex = do
    raise_if (is_blank name) empty_name
    token ← or_raise (← gets (get_by_hash (hash_secret secret))) invalid_token
    raise_if (not (token.profile_id == profile_id)) invalid_token
    raise_if (is_some token.consumed_at) token_used
    raise_if (leb token.expires_at now) token_expired
    let device = new_device profile_id name platform now device_secret hex
    raise_if (not (device_ok device)) value_error
    redeem token.id device device_secret now

  unfoldable pub authenticate : String → ℕ → Action PairedDevice
  authenticate credential now = do
    parsed ← lift (parse_credential credential)
    device ← or_raise (← gets (get_device parsed.0)) unknown_credential
    raise_if (not (verify_secret parsed.1 device.credential_hash)) unknown_credential
    raise_if (not (is_active device)) device_revoked
    touch device.id now
    pure device
