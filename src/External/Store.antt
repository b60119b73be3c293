-- ===== src/External/Store.antt =====
-- The three tables of external access and the methods of their two repositories. Each method is
-- one transaction; a row is read through the constructor of its record, which may refuse it.
-- Identities are never deleted, so the foreign keys to them hold.
use soulmate.Prelude.{
  ℕ, String, Bool, true, false, not, ◌&&◌, ◌||◌, Option, none, some, is_none, List, [], ◌∷◌, ◌++◌,
  ◌==◌, any, map, filter, find, sort_by, text_in, update_where, delete_where, if◌then◌else◌, ltb,
  eqb,
}
use soulmate.Exec.{Result, ok, err, bind, reject_if, Exec, gets, raise_if, modify, ◌>>=◌, ◌>>◌}
use soulmate.Text.Order.{lt_text}
use soulmate.External.Records.{ServiceIdentity, identity_ok, ApiCredential, credential_ok}

pub record IdentityRow : Type 0 where
  pub id : String
  pub profile_id : String
  pub name : String
  pub description : Option String
  pub created_at : ℕ
  pub revoked_at : Option ℕ

pub record ScopeRow : Type 0 where
  pub service_identity_id : String
  pub scope : String

pub record Store : Type 0 where
  pub identities : List IdentityRow
  pub scopes : List ScopeRow
  pub credentials : List ApiCredential

-- `ExternalAccessError`, a constructor for each message, and the other exceptions.
pub data Error : Type 0 where
  scope_required unknown_scope malformed_key unrecognized_credential lacks_scope : Error
  identity_revoked identity_not_found identity_inactive already_revoked : Error
  credential_not_found credential_already_revoked : Error
  value_error key_error integrity_error : Error

abbrev pub Action : Type 0 → Type 0
Action A = Exec Error Store A

-- `scope_rows` in `add` and in `replace_scopes`
abbrev scope_rows : String → List String → List ScopeRow
scope_rows identity_id scopes =
    map (λ scope. record { service_identity_id = identity_id; scope = scope }) scopes

-- The primary key of the scopes.
abbrev repeated : List String → Bool
repeated [] = false
repeated (x ∷ xs) = text_in x xs || repeated xs

abbrev scope_of : String → ScopeRow → Bool
scope_of identity_id r = r.service_identity_id == identity_id

-- The record that a row and its scopes make.
abbrev pub read_row : Store → IdentityRow → ServiceIdentity
read_row s row = record {
  id = row.id;
  profile_id = row.profile_id;
  name = row.name;
  description = row.description;
  scopes =
      sort_by (λ a b. not (lt_text b a)) (map (λ r. r.scope) (filter (scope_of row.id) s.scopes));
  created_at = row.created_at;
  revoked_at = row.revoked_at;
}

-- `SqliteServiceIdentityRepository._to_domain`
unfoldable pub to_domain : Store → IdentityRow → Result Error ServiceIdentity
to_domain s row =
    bind (reject_if (not (identity_ok (read_row s row))) value_error) λ _. ok (read_row s row)

abbrev pub optional : {A B : Type 0} → (A → Result Error B) → Option A → Result Error (Option B)
optional f none = ok none
optional f (some a) = bind (f a) λ b. ok (some b)

abbrev each : {A B : Type 0} → (A → Result Error B) → List A → Result Error (List B)
each f [] = ok []
each f (a ∷ rest) = bind (f a) λ b. bind (each f rest) λ bs. ok (b ∷ bs)

abbrev to_row : ServiceIdentity → IdentityRow
to_row i = record {
  id = i.id;
  profile_id = i.profile_id;
  name = i.name;
  description = i.description;
  created_at = i.created_at;
  revoked_at = i.revoked_at;
}

-- `SqliteServiceIdentityRepository.add`
unfoldable pub add_identity : ServiceIdentity → Action Unit
add_identity i = do
  rows ← gets (λ s. s.identities)
  raise_if (any (λ r. r.id == i.id) rows || repeated i.scopes) integrity_error
  modify (λ s. record s {
    identities = s.identities ++ to_row i ∷ [];
    scopes = s.scopes ++ scope_rows i.id i.scopes;
  })

abbrev pub identity_row : String → Store → Option IdentityRow
identity_row identity_id s = find (λ r. r.id == identity_id) s.identities

-- `SqliteServiceIdentityRepository.get`
unfoldable pub get_identity : String → Action (Option ServiceIdentity)
get_identity identity_id s = (optional (to_domain s) (identity_row identity_id s), s)

-- `SqliteServiceIdentityRepository.list_for_profile`
unfoldable pub list_identities : String → Action (List ServiceIdentity)
list_identities profile_id s = (
  each (to_domain s) (
      sort_by
        (λ a b.
          ltb b.created_at a.created_at
          || (eqb a.created_at b.created_at && not (lt_text a.id b.id)))
        (filter (λ r. r.profile_id == profile_id) s.identities)),
  s,
)

-- `SqliteServiceIdentityRepository.replace_scopes`
unfoldable pub replace_scope_rows : String → List String → Action Bool
replace_scope_rows identity_id scopes s =
    if is_none (identity_row identity_id s)
    then (ok false, s)
    else if repeated scopes
    then (err integrity_error, s)
    else (
      ok true,
      record s {
        scopes = delete_where (scope_of identity_id) s.scopes ++ scope_rows identity_id scopes;
      },
    )

abbrev pub identity_open : String → IdentityRow → Bool
identity_open identity_id r = r.id == identity_id && is_none r.revoked_at

abbrev pub identity_closed : ℕ → IdentityRow → IdentityRow
identity_closed at r = record r { revoked_at = some at }

-- `SqliteServiceIdentityRepository.revoke`
unfoldable pub revoke_identity_row : String → ℕ → Action Bool
revoke_identity_row identity_id revoked_at s = (
  ok (any (identity_open identity_id) s.identities),
  record s {
    identities = update_where (identity_open identity_id) (identity_closed revoked_at) s.identities;
  },
)

-- `SqliteApiCredentialRepository._to_domain`
unfoldable pub read_credential : ApiCredential → Result Error ApiCredential
read_credential c = bind (reject_if (not (credential_ok c)) value_error) λ _. ok c

-- `SqliteApiCredentialRepository.add`
unfoldable pub add_credential : ApiCredential → Action Unit
add_credential c = do
  rows ← gets (λ s. s.credentials)
  raise_if (any (λ r. r.id == c.id || r.secret_hash == c.secret_hash) rows) integrity_error
  modify (λ s. record s { credentials = s.credentials ++ c ∷ [] })

abbrev pub credential_row : String → Store → Option ApiCredential
credential_row credential_id s = find (λ c. c.id == credential_id) s.credentials

-- `SqliteApiCredentialRepository.get`
unfoldable pub get_credential : String → Action (Option ApiCredential)
get_credential credential_id s = (optional read_credential (credential_row credential_id s), s)

-- `SqliteApiCredentialRepository.list_for_identity`
unfoldable pub list_for_identity : String → Action (List ApiCredential)
list_for_identity identity_id s = (
  each read_credential (
      sort_by
        (λ a b.
          ltb b.created_at a.created_at
          || (eqb a.created_at b.created_at && not (lt_text a.id b.id)))
        (filter (λ c. c.service_identity_id == identity_id) s.credentials)),
  s,
)

abbrev pub used : ℕ → ApiCredential → ApiCredential
used at c = record c { last_used_at = some at }

-- `SqliteApiCredentialRepository.touch`
unfoldable pub touch_credential : String → ℕ → Action Unit
touch_credential credential_id last_used_at s =
    if any (λ c. c.id == credential_id) s.credentials
    then (
      ok tt,
      record s {
        credentials = update_where (λ c. c.id == credential_id) (used last_used_at) s.credentials;
      },
    )
    else (err key_error, s)

abbrev credential_open : String → ApiCredential → Bool
credential_open credential_id c = c.id == credential_id && is_none c.revoked_at

abbrev credential_closed : ℕ → ApiCredential → ApiCredential
credential_closed at c = record c { revoked_at = some at }

-- `SqliteApiCredentialRepository.revoke`
unfoldable pub revoke_credential_row : String → ℕ → Action Bool
revoke_credential_row credential_id revoked_at s = (
  ok (any (credential_open credential_id) s.credentials),
  record s {
    credentials =
        update_where (credential_open credential_id) (credential_closed revoked_at) s.credentials;
  },
)
