-- ===== src/Keys/Review.antt =====
-- `KeyAliasService` of daemon/key_aliases.py: the owner's changes of aliases.
use soulmate.Prelude.{ℕ, String, Bool, not, ◌&&◌, Option, none, some, ◌==◌, any, if◌then◌else◌}
use soulmate.Exec.{Result, ok, err, Exec, raise_if, or_raise, gets, ◌>>=◌, ◌>>◌}
use soulmate.Text.{strip}
use soulmate.Float.{ℤ, negsuc}
use soulmate.Keys.Records.{
  EvidenceTargetType, is_preference, TargetKeyAlias, alias_ok, owner, active, rejected, times_int,
}
use soulmate.Keys.Aliases.{Identity, Error}
use soulmate.Keys.Store.{KeyStore, same_type, upsert, get, remove}
use soulmate.Keys.Evidence.{list_for_profile}
use soulmate.Domain.Evidence.{Evidence}

pub data KeyAliasReviewAction : Type 0 where
  approve reject invert : KeyAliasReviewAction

-- `KeyError`, the messages of `KeyAliasError`, and the errors of the repository under it
pub data ReviewError : Type 0 where
  unknown_key only_preferences value_error : ReviewError
  not_stored : Error → ReviewError

abbrev owner_alias_version : String
owner_alias_version = "owner-alias-v1"

abbrev pub refused : Result Error TargetKeyAlias → Result ReviewError TargetKeyAlias
refused (ok row) = ok row
refused (err e) = err (not_stored e)

-- `upsert` of a valid alias; the constructor raises for an invalid one.
abbrev pub checked_upsert : TargetKeyAlias → Exec ReviewError KeyStore TargetKeyAlias
checked_upsert alias s =
    if alias_ok alias
    then (let (r, s') = upsert alias s in (refused r, s'))
    else (err value_error, s)

abbrev pub uses_key : String → EvidenceTargetType → String → KeyStore → Bool
uses_key profile_id target_type key s =
    any (λ (e : Evidence). same_type e.target_type target_type && e.target_key == key)
      (list_for_profile profile_id s)

abbrev first_created : ℕ → Option TargetKeyAlias → ℕ
first_created now none = now
first_created now (some a) = a.created_at

abbrev pub identity : String → EvidenceTargetType → String → Identity
identity profile_id target_type key = record {
  profile_id = profile_id;
  target_type = target_type;
  key = key;
}

-- `KeyAliasService.create`
unfoldable pub create :
    String → EvidenceTargetType → String → String → ℤ → ℕ → Exec ReviewError KeyStore TargetKeyAlias
create profile_id target_type alias_key canonical_key polarity now = do
  used ← gets (uses_key profile_id target_type (strip alias_key))
  raise_if (not used) unknown_key
  existing ← gets (get (identity profile_id target_type (strip alias_key)))
  checked_upsert (record {
    profile_id = profile_id;
    target_type = target_type;
    alias_key = strip alias_key;
    canonical_key = strip canonical_key;
    polarity = polarity;
    method = owner;
    status = active;
    algorithm_version = owner_alias_version;
    created_at = first_created now existing;
    updated_at = now;
    similarity = none;
  })

-- `-n`
abbrev negated : ℤ → ℤ
negated n = times_int (negsuc 0) n

abbrev pub reviewed :
    KeyAliasReviewAction → ℕ → TargetKeyAlias → Exec ReviewError KeyStore TargetKeyAlias
reviewed reject now a = checked_upsert (record a { status = rejected; updated_at = now })
reviewed approve now a = checked_upsert (record a { status = active; updated_at = now })
reviewed invert now a = do
  raise_if (not (is_preference a.target_type)) only_preferences
  checked_upsert (record a { polarity = negated a.polarity; status = active; updated_at = now })

-- `KeyAliasService.review`
unfoldable pub review :
    Identity → KeyAliasReviewAction → ℕ → Exec ReviewError KeyStore TargetKeyAlias
review i action now = do
  found ← gets (get i)
  alias ← or_raise found unknown_key
  reviewed action now alias

-- `KeyAliasService.remove`
unfoldable drop_alias : Identity → Exec ReviewError KeyStore Unit
drop_alias i s = let (removed, s') = remove i s in (if removed then ok tt else err unknown_key, s')
