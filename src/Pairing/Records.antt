-- ===== src/Pairing/Records.antt =====
-- Pairing tokens, paired devices and what their constructors refuse (domain/models.py).
use soulmate.Prelude.{ℕ, String, Bool, not, ◌&&◌, Option, is_none, ltb, leb}
use soulmate.Text.{is_empty, is_blank}

pub record PairingToken : Type 0 where
  pub id : String
  pub profile_id : String
  pub token_hash : String
  pub created_at : ℕ
  pub expires_at : ℕ
  pub consumed_at : Option ℕ
  pub device_id : Option String

-- `PairingToken.__post_init__` raises unless this holds.
unfoldable pub token_ok : PairingToken → Bool
token_ok t = not (is_empty t.token_hash) && not (leb t.expires_at t.created_at)

-- `PairingToken.is_usable_at`
unfoldable pub is_usable_at : ℕ → PairingToken → Bool
is_usable_at now t = is_none t.consumed_at && ltb now t.expires_at

pub record PairedDevice : Type 0 where
  pub id : String
  pub profile_id : String
  pub name : String
  pub platform : String
  pub credential_hash : String
  pub created_at : ℕ
  pub last_seen_at : Option ℕ
  pub revoked_at : Option ℕ

-- `PairedDevice.__post_init__` raises unless this holds.
unfoldable pub device_ok : PairedDevice → Bool
device_ok d = not (is_blank d.name) && not (is_empty d.credential_hash)

-- `PairedDevice.is_active`
abbrev pub is_active : PairedDevice → Bool
is_active d = is_none d.revoked_at
