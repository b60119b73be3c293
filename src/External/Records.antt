-- ===== src/External/Records.antt =====
-- Service identities, API credentials and what their constructors refuse (domain/models.py).
use soulmate.Prelude.{
  ℕ, String, Bool, true, false, not, ◌&&◌, Option, none, some, is_none, List, [], ◌∷◌, ◌==◌, any,
}
use soulmate.Text.{is_empty, is_blank}
use soulmate.Text.SortedSet.{sorted_set}

pub record ServiceIdentity : Type 0 where
  pub id : String
  pub profile_id : String
  pub name : String
  pub description : Option String
  pub scopes : List String
  pub created_at : ℕ
  pub revoked_at : Option ℕ

abbrev pub eq_texts : List String → List String → Bool
eq_texts [] [] = true
eq_texts [] (y ∷ ys) = false
eq_texts (x ∷ xs) [] = false
eq_texts (x ∷ xs) (y ∷ ys) = x == y && eq_texts xs ys

-- `not xs`
abbrev pub no_texts : List String → Bool
no_texts [] = true
no_texts (x ∷ xs) = false

-- `x is not None and not x.strip()`
abbrev blank_description : Option String → Bool
blank_description none = false
blank_description (some d) = is_blank d

-- `ServiceIdentity.__post_init__` raises unless this holds.
unfoldable pub identity_ok : ServiceIdentity → Bool
identity_ok i =
    not (is_blank i.name)
    && not (blank_description i.description)
    && not (no_texts i.scopes)
    && not (any is_blank i.scopes)
    && eq_texts (sorted_set i.scopes) i.scopes

abbrev pub identity_active : ServiceIdentity → Bool
identity_active i = is_none i.revoked_at

pub record ApiCredential : Type 0 where
  pub id : String
  pub service_identity_id : String
  pub secret_hash : String
  pub created_at : ℕ
  pub last_used_at : Option ℕ
  pub revoked_at : Option ℕ

-- `ApiCredential.__post_init__` raises unless this holds.
unfoldable pub credential_ok : ApiCredential → Bool
credential_ok c = not (is_empty c.secret_hash)

abbrev pub credential_active : ApiCredential → Bool
credential_active c = is_none c.revoked_at
