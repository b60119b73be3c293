-- ===== src/External/Service.antt =====
-- `ExternalIdentityService` and the functions beside it. The digest of a secret is a parameter of
-- the model; `hex` and `secret` are what the service's factories return in a call.
use Prim.Native.String.{◌++◌ as append}
use soulmate.Prelude.{
  ℕ, String, Bool, not, ◌||◌, Option, none, List, [], ◌∷◌, ◌==◌, any, text_in, map_option,
  if◌then◌else◌,
}
use soulmate.Exec.{Result, ok, err, bind, reject_if, pure, raise_if, lift, or_raise, ◌>>=◌, ◌>>◌}
use soulmate.Text.{strip, is_empty, partition}
use soulmate.Text.SortedSet.{sorted_set}
use soulmate.External.Records.{
  ServiceIdentity, identity_ok, identity_active, ApiCredential, credential_ok, credential_active,
  no_texts,
}
use soulmate.External.Store.{
  Error, scope_required, unknown_scope, malformed_key, unrecognized_credential, lacks_scope,
  identity_revoked, identity_not_found, identity_inactive, already_revoked, credential_not_found,
  credential_already_revoked, value_error, Action, add_identity, get_identity, replace_scope_rows,
  revoke_identity_row, add_credential, get_credential, list_for_identity, touch_credential,
  revoke_credential_row,
}

abbrev pub api_key_prefix : String
api_key_prefix = "sk_soulmate"

-- `SERVICE_SCOPES`
unfoldable pub service_scopes : List String
service_scopes =
    "agent:delegate" ∷ "decision:predict" ∷ "decision:record" ∷ "decision:resolution:record"
    ∷ "interaction:record" ∷ "model:summary:read" ∷ "outcome:observe" ∷ "outcome:record"
    ∷ "preference:summary:read" ∷ []

unfoldable pub validate_scopes : List String → Result Error (List String)
validate_scopes scopes = bind (reject_if (no_texts (sorted_set scopes)) scope_required) λ _.
    bind
      (reject_if (any (λ scope. not (text_in scope service_scopes)) (sorted_set scopes))
        unknown_scope)
      λ _. ok (sorted_set scopes)

-- `format_api_key`, with the separator "."
unfoldable pub format_api_key : String → String → String
format_api_key credential_id secret =
    append api_key_prefix (String.◌∷◌ "." (append credential_id (String.◌∷◌ "." secret)))

unfoldable pub parse_api_key : String → Result Error (String × String)
parse_api_key api_key =
    let (prefix, separator, remainder) = partition "." api_key in
    let (credential_id, separator_two, secret) = partition "." remainder in
    if not (prefix == api_key_prefix)
      || is_empty separator
      || is_empty separator_two
      || is_empty credential_id
      || is_empty secret
    then err malformed_key
    else ok (credential_id, secret)

pub record IssuedApiCredential : Type 0 where
  pub identity : ServiceIdentity
  pub credential : ApiCredential
  pub api_key : String

pub record ExternalPrincipal : Type 0 where
  pub identity : ServiceIdentity
  pub credential : ApiCredential

-- `_active_identity`
unfoldable pub active_identity : String → Action ServiceIdentity
active_identity identity_id = do
  identity ← or_raise (← get_identity identity_id) identity_inactive
  raise_if (not (identity_active identity)) identity_inactive
  pure identity

-- `_owned_identity`
unfoldable pub owned_identity : String → String → Action ServiceIdentity
owned_identity profile_id identity_id = do
  identity ← or_raise (← get_identity identity_id) identity_not_found
  raise_if (not (identity.profile_id == profile_id)) identity_not_found
  pure identity

unfoldable pub require_scope : ExternalPrincipal → String → Result Error (Unit {0})
require_scope principal scope =
    reject_if (not (text_in scope principal.identity.scopes)) lacks_scope

unfoldable pub replace_scopes : String → String → List String → Action ServiceIdentity
replace_scopes profile_id identity_id scopes = do
  identity ← owned_identity profile_id identity_id
  raise_if (not (identity_active identity)) identity_revoked
  normalized ← lift (validate_scopes scopes)
  replaced ← replace_scope_rows identity.id normalized
  raise_if (not replaced) identity_not_found
  or_raise (← get_identity identity.id) identity_not_found

unfoldable pub revoke_identity : String → String → ℕ → Action ServiceIdentity
revoke_identity profile_id identity_id now = do
  identity ← owned_identity profile_id identity_id
  revoked ← revoke_identity_row identity.id now
  raise_if (not revoked) already_revoked
  or_raise (← get_identity identity.id) identity_not_found

unfoldable pub revoke_credential : String → String → String → ℕ → Action ApiCredential
revoke_credential profile_id identity_id credential_id now = do
  identity ← owned_identity profile_id identity_id
  credential ← or_raise (← get_credential credential_id) credential_not_found
  raise_if (not (credential.service_identity_id == identity.id)) credential_not_found
  revoked ← revoke_credential_row credential.id now
  raise_if (not revoked) credential_already_revoked
  or_raise (← get_credential credential.id) credential_not_found

unfoldable pub list_credentials : String → String → Action (List ApiCredential)
list_credentials profile_id identity_id = do
  identity ← owned_identity profile_id identity_id
  list_for_identity identity.id

module _ (hash_api_secret : String → String) where
  unfoldable pub issue_credential : String → ℕ → String → String → Action IssuedApiCredential
  issue_credential identity_id now secret hex = do
    identity ← active_identity identity_id
    let credential : ApiCredential = record {
      id = append "credential_" hex;
      service_identity_id = identity.id;
      secret_hash = hash_api_secret secret;
      created_at = now;
      last_used_at = none;
      revoked_at = none;
    }
    raise_if (not (credential_ok credential)) value_error
    add_credential credential
    pure (record {
      identity = identity;
      credential = credential;
      api_key = format_api_key credential.id secret;
    })

  unfoldable pub create :
      String
      → String
      → Option String
      → List String
      → ℕ
      → String
      → String
      → String
      → Action IssuedApiCredential
  create profile_id name description scopes now hex secret credential_hex = do
    normalized ← lift (validate_scopes scopes)
    let identity : ServiceIdentity = record {
      id = append "service_" hex;
      profile_id = profile_id;
      name = strip name;
      description = map_option strip description;
      scopes = normalized;
      created_at = now;
      revoked_at = none;
    }
    raise_if (not (identity_ok identity)) value_error
    add_identity identity
    issue_credential identity.id now secret credential_hex

  abbrev pub credential_refused : ApiCredential → String → Bool
  credential_refused c secret =
      not (credential_active c) || not (hash_api_secret secret == c.secret_hash)

  unfoldable pub authenticate : String → ℕ → Action ExternalPrincipal
  authenticate api_key now = do
    parsed ← lift (parse_api_key api_key)
    credential ← or_raise (← get_credential parsed.0) unrecognized_credential
    raise_if (credential_refused credential parsed.1) unrecognized_credential
    identity ← active_identity credential.service_identity_id
    touch_credential credential.id now
    pure (record { identity = identity; credential = credential })
