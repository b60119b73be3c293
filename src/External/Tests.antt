-- ===== src/External/Tests.antt =====
-- Runs of the identity service on a small store, and the theorems at concrete inputs.
use Prim.Native.String.{◌++◌ as append}
use soulmate.Prelude.{
  String, ◌≡◌, ◌≢◌, refl, true, false, some, none, List, [], ◌∷◌, All, text_in, find, update_where,
  delete_where, filter, sort_by,
}
use soulmate.Exec.{ok, err}
use soulmate.Text.{strip, partition}
use soulmate.Text.Order.{lt_text}
use soulmate.Text.SortedSet.{sorted_set, insert_once, Increasing}
use soulmate.External.Records.{ServiceIdentity, identity_ok, ApiCredential, credential_ok, no_texts}
use soulmate.External.Store.{
  Store, unknown_scope, lacks_scope, credential_already_revoked, to_domain, get_identity,
  get_credential, read_credential, revoke_identity_row, add_identity, add_credential,
  touch_credential, replace_scope_rows, revoke_credential_row, list_for_identity, list_identities,
}
use soulmate.External.Service.{
  validate_scopes, service_scopes, format_api_key, parse_api_key, active_identity, owned_identity,
  require_scope, replace_scopes, revoke_identity, revoke_credential, list_credentials,
  issue_credential, create, authenticate,
}
use soulmate.External.ApiKey.{parse_api_key-format_api_key}
use soulmate.External.Scopes.{validate_scopes_lem}
use soulmate.External.Issue.{authenticate-issue_credential}
use soulmate.External.Admission.{Admitted, authenticate-Admitted}
use soulmate.External.Revocation.{revoked_identity_admits_nobody, here}

-- A digest for the runs.
abbrev digest : String → String
digest secret = append "sha-" secret

abbrev agent : ServiceIdentity
agent = record {
  id = "service_1";
  profile_id = "owner";
  name = "Mail";
  description = none;
  scopes = "decision:predict" ∷ "outcome:record" ∷ [];
  created_at = 10;
  revoked_at = none;
}

abbrev credential : ApiCredential
credential = record {
  id = "credential_2";
  service_identity_id = "service_1";
  secret_hash = "sha-key";
  created_at = 10;
  last_used_at = none;
  revoked_at = none;
}

abbrev store : Store
store = record {
  identities =
      (record {
        id = "service_1";
        profile_id = "owner";
        name = "Mail";
        description = none;
        created_at = 10;
        revoked_at = none;
      })
      ∷ [];
  scopes =
      (record { service_identity_id = "service_1"; scope = "outcome:record" })
      ∷ (record { service_identity_id = "service_1"; scope = "decision:predict" })
      ∷ [];
  credentials = credential ∷ [];
}

abbrev nothing_stored : Store
nothing_stored = record { identities = []; scopes = []; credentials = [] }

validates :
    validate_scopes ("outcome:record" ∷ "decision:predict" ∷ "outcome:record" ∷ [])
    ≡ ok ("decision:predict" ∷ "outcome:record" ∷ [])
unfolding validate_scopes sorted_set insert_once lt_text service_scopes
validates = refl

rejects : validate_scopes ("outcome:read" ∷ []) ≡ err unknown_scope
unfolding validate_scopes sorted_set insert_once service_scopes
rejects = refl

creates :
    (create digest "owner" " Mail " none
      ("outcome:record" ∷ "decision:predict" ∷ [])
      10
      "1"
      "key"
      "2"
      nothing_stored).0
    ≡ ok (record {
      identity = agent;
      credential = credential;
      api_key = "sk_soulmate.credential_2.key";
    })
unfolding create validate_scopes sorted_set insert_once lt_text service_scopes identity_ok strip
    add_identity issue_credential active_identity get_identity find to_domain sort_by filter
    credential_ok add_credential format_api_key
creates = refl

admits :
    (authenticate digest "sk_soulmate.credential_2.key" 20 store).0
    ≡ ok (record { identity = agent; credential = credential })
unfolding authenticate parse_api_key partition get_credential read_credential find credential_ok
    active_identity get_identity to_domain sort_by filter lt_text identity_ok sorted_set insert_once
    strip touch_credential
admits = refl

limits :
    require_scope (record { identity = agent; credential = credential }) "agent:delegate"
    ≡ err lacks_scope
unfolding require_scope
limits = refl

closes :
    (revoke_identity "owner" "service_1" 30 store).0 ≡ ok (record agent { revoked_at = some 30 })
unfolding revoke_identity owned_identity get_identity find to_domain sort_by filter lt_text
    identity_ok sorted_set insert_once strip revoke_identity_row update_where
closes = refl

closes_once :
    (revoke_credential "owner" "service_1" "credential_2" 50
      (revoke_credential "owner" "service_1" "credential_2" 40 store).1).0
    ≡ err credential_already_revoked
unfolding revoke_credential owned_identity get_identity find to_domain sort_by filter lt_text
    identity_ok sorted_set insert_once strip get_credential read_credential credential_ok
    revoke_credential_row update_where
closes_once = refl

rescopes :
    (replace_scopes "owner" "service_1" ("outcome:observe" ∷ []) store).0
    ≡ ok (record agent { scopes = "outcome:observe" ∷ [] })
unfolding replace_scopes owned_identity get_identity find to_domain sort_by filter lt_text
    identity_ok sorted_set insert_once strip validate_scopes service_scopes replace_scope_rows
    delete_where
rescopes = refl

lists : (list_credentials "owner" "service_1" store).0 ≡ ok (credential ∷ [])
unfolding list_credentials owned_identity get_identity find to_domain sort_by filter lt_text
    identity_ok sorted_set insert_once strip list_for_identity read_credential credential_ok
lists = refl

lists_identities : (list_identities "owner" store).0 ≡ ok (agent ∷ [])
unfolding list_identities to_domain sort_by filter lt_text identity_ok sorted_set insert_once strip
lists_identities = refl

parse_api_key-format_api_key_example :
    parse_api_key (format_api_key "credential_2" "ke.y") ≡ ok ("credential_2", "ke.y")
parse_api_key-format_api_key_example =
    parse_api_key-format_api_key "credential_2" "ke.y" refl refl refl

parses : parse_api_key "sk_soulmate.credential_2.key" ≡ ok ("credential_2", "key")
unfolding parse_api_key partition
parses = refl

validate_scopes_lem_example :
    let given : List String = "outcome:record" ∷ "decision:predict" ∷ "outcome:record" ∷ [] in
    let kept : List String = "decision:predict" ∷ "outcome:record" ∷ [] in
    (no_texts kept ≡ false)
    × Increasing kept
    × All (λ x. text_in x service_scopes ≡ true) kept
    × ((x : String) → text_in x kept ≡ text_in x given)
    × (validate_scopes kept ≡ ok kept)
validate_scopes_lem_example =
    validate_scopes_lem ("outcome:record" ∷ "decision:predict" ∷ "outcome:record" ∷ [])
      ("decision:predict" ∷ "outcome:record" ∷ []) validates

authenticate-Admitted_example :
    Admitted digest "sk_soulmate.credential_2.key" 20 store
      (record { identity = agent; credential = credential })
authenticate-Admitted_example =
    authenticate-Admitted digest "sk_soulmate.credential_2.key" 20 store
      (record { identity = agent; credential = credential }) admits

-- A second identity, which the revocation of the first one leaves alone.
abbrev two : Store
two = record store {
  identities =
      (record {
        id = "service_9";
        profile_id = "owner";
        name = "Old";
        description = none;
        created_at = 9;
        revoked_at = none;
      })
      ∷ store.identities;
  scopes = (record { service_identity_id = "service_9"; scope = "outcome:record" }) ∷ store.scopes;
}

abbrev two_left : Store
two_left = (revoke_identity "owner" "service_9" 30 two).1

closes_other :
    (revoke_identity "owner" "service_9" 30 two).0
    ≡ ok (record {
      id = "service_9";
      profile_id = "owner";
      name = "Old";
      description = none;
      scopes = "outcome:record" ∷ [];
      created_at = 9;
      revoked_at = some 30;
    })
unfolding revoke_identity owned_identity get_identity find to_domain sort_by filter lt_text
    identity_ok sorted_set insert_once strip revoke_identity_row update_where
closes_other = refl

still_admits :
    (authenticate digest "sk_soulmate.credential_2.key" 40 two_left).0
    ≡ ok (record { identity = agent; credential = credential })
unfolding authenticate parse_api_key partition get_credential read_credential find credential_ok
    active_identity get_identity to_domain sort_by filter lt_text identity_ok sorted_set insert_once
    strip touch_credential revoke_identity owned_identity revoke_identity_row update_where
still_admits = refl

revoked_identity_admits_nobody_example : credential.service_identity_id ≢ "service_9"
revoked_identity_admits_nobody_example =
    revoked_identity_admits_nobody "owner" "service_9" 30 two digest "sk_soulmate.credential_2.key"
      40 two_left
      (record {
        id = "service_9";
        profile_id = "owner";
        name = "Old";
        description = none;
        scopes = "outcome:record" ∷ [];
        created_at = 9;
        revoked_at = some 30;
      })
      (record { identity = agent; credential = credential }) closes_other here still_admits

abbrev without_credentials : Store
without_credentials = record store { credentials = [] }

issues :
    (issue_credential digest "service_1" 10 "key" "2" without_credentials).0
    ≡ ok (record {
      identity = agent;
      credential = credential;
      api_key = "sk_soulmate.credential_2.key";
    })
unfolding issue_credential active_identity get_identity find to_domain sort_by filter lt_text
    identity_ok sorted_set insert_once strip credential_ok add_credential format_api_key
issues = refl

authenticate-issue_credential_example :
    (authenticate digest "sk_soulmate.credential_2.key" 20
      (issue_credential digest "service_1" 10 "key" "2" without_credentials).1).0
    ≡ ok (record { identity = agent; credential = credential })
authenticate-issue_credential_example =
    authenticate-issue_credential digest "service_1" "key" "2" 10 without_credentials
      (record {
        identity = agent;
        credential = credential;
        api_key = "sk_soulmate.credential_2.key";
      })
      20 issues refl refl
