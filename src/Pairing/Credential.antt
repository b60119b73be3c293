-- ===== src/Pairing/Credential.antt =====
-- A device credential is its device id and its secret, and can be taken apart again.
use soulmate.Prelude.{String, ◌≡◌, refl, sym, Bool, true, false, ◌||◌, arith, if◌then◌else◌}
use soulmate.Exec.{ok, err, ok_inj}
use soulmate.Text.{is_empty, has_char, partition}
use soulmate.Text.Partition.{partition-append}
use soulmate.Pairing.Service.{format_credential, parse_credential, malformed_credential}

-- A device id without a dot and a secret, both of them not empty, come back from the credential
-- that is made of them.
pub parse-format :
    (device_id secret : String)
    → has_char "." device_id ≡ false
    → is_empty device_id ≡ false
    → is_empty secret ≡ false
    → parse_credential (format_credential device_id secret) ≡ ok (device_id, secret)
unfolding parse_credential format_credential
parse-format device_id secret dot a b = rw (partition-append "." device_id secret dot, a, b)

guarded :
    (b : Bool) (x y : String × String)
    → (if b then err malformed_credential else ok y) ≡ ok x
    → (b ≡ false) × (x ≡ y)
guarded true x y h = absurd (cc h)
guarded false x y h = (refl, sym (ok_inj h))

none_of_three : (a b c : Bool) → (a || b || c) ≡ false → (a ≡ false) × (b ≡ false) × (c ≡ false)
none_of_three a b c h = ground arith

parse_parts :
    (c : String)
    → let (device_id, separator, secret) = partition "." c in
      (x : String × String)
      → parse_credential c ≡ ok x
      → (x ≡ (device_id, secret))
        × (is_empty separator ≡ false)
        × (is_empty device_id ≡ false)
        × (is_empty secret ≡ false)
unfolding parse_credential
parse_parts c x h =
    let (off, same) = guarded _ x _ h in let (a, b, d) = none_of_three _ _ _ off in (same, a, b, d)
