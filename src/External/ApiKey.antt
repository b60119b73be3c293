-- ===== src/External/ApiKey.antt =====
-- An API key is a fixed prefix, a credential id and a secret, and can be taken apart again.
use Prim.Native.String.{◌++◌ as append}
use soulmate.Prelude.{
  String, ◌≡◌, refl, sym, Bool, true, false, not, ◌||◌, eq_iff, arith, if◌then◌else◌,
}
use soulmate.Exec.{ok, err, ok_inj}
use soulmate.Text.{is_empty, has_char, partition}
use soulmate.Text.Partition.{partition-append}
use soulmate.External.Store.{malformed_key}
use soulmate.External.Service.{api_key_prefix, format_api_key, parse_api_key}

-- A credential id without a dot and a secret, both of them not empty, come back from the API key
-- that is made of them.
pub parse_api_key-format_api_key :
    (credential_id secret : String)
    → has_char "." credential_id ≡ false
    → is_empty credential_id ≡ false
    → is_empty secret ≡ false
    → parse_api_key (format_api_key credential_id secret) ≡ ok (credential_id, secret)
unfolding parse_api_key format_api_key
parse_api_key-format_api_key credential_id secret dot a b = rw (
  partition-append "." api_key_prefix (append credential_id (String.◌∷◌ "." secret)) refl,
  partition-append "." credential_id secret dot,
  a,
  b,
)

guarded :
    (b : Bool) (x y : String × String)
    → (if b then err malformed_key else ok y) ≡ ok x
    → (b ≡ false) × (x ≡ y)
guarded true x y h = absurd (cc h)
guarded false x y h = (refl, sym (ok_inj h))

none_of_five :
    (a b c d e : Bool)
    → (not a || b || c || d || e) ≡ false
    → (a ≡ true) × (b ≡ false) × (c ≡ false) × (d ≡ false) × (e ≡ false)
none_of_five a b c d e h = ground arith

module _ (key : String) where
  abbrev rest : String
  rest = (partition "." key).2

  parse_parts :
      (x : String × String)
      → parse_api_key key ≡ ok x
      → (x ≡ ((partition "." rest).0, (partition "." rest).2))
        × ((partition "." key).0 ≡ api_key_prefix)
        × (is_empty (partition "." key).1 ≡ false)
        × (is_empty (partition "." rest).1 ≡ false)
        × (is_empty (partition "." rest).0 ≡ false)
        × (is_empty (partition "." rest).2 ≡ false)
  unfolding parse_api_key
  parse_parts x h =
      let (off, same) = guarded _ x _ h in
      let (prefix, a, b, c, d) = none_of_five _ _ _ _ _ off in
      (same, (eq_iff (partition "." key).0 api_key_prefix).0 prefix, a, b, c, d)
