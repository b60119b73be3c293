-- ===== src/Keys/Store.antt =====
-- storage/key_aliases.py: the tables of keys, the evidence revision, `_supported_keys` and the
-- repository of aliases. The rows of the tables are the records that they are read as.
use soulmate.Prelude.{
  ℕ, ◌+◌, String, Bool, true, false, not, ◌&&◌, Option, none, some, List, [], ◌∷◌, ◌++◌, ◌==◌, any,
  filter, find, update_where, delete_where, if◌then◌else◌, eqb, ltb, sort_by, ◌||◌,
}
use soulmate.Exec.{Result, ok, Exec, lift, gets, ◌>>=◌}
use soulmate.Text.Order.{lt_text}
use soulmate.Keys.Records.{
  EvidenceTargetType, target_type_index, type_order, status_index, TargetKeyAlias,
  TargetKeyAliasStatus, is_active,
}
use soulmate.Keys.Aliases.{Identity, identity_of, eq_identity, Entry, Error, key_alias_map}
use soulmate.Domain.Evidence.{Evidence, TargetKeyLabel, TargetKeyEmbedding}

pub record EvidenceRevision : Type 0 where
  pub profile_id : String
  pub revision : ℕ

pub record KeyStore : Type 0 where
  pub evidence : List Evidence
  pub revisions : List EvidenceRevision
  pub aliases : List TargetKeyAlias
  pub catalog : List TargetKeyLabel
  pub embeddings : List TargetKeyEmbedding

abbrev pub of_profile : String → EvidenceRevision → Bool
of_profile profile_id r = r.profile_id == profile_id

abbrev next_revision : EvidenceRevision → EvidenceRevision
next_revision r = record r { revision = r.revision + 1 }

-- INSERT ... ON CONFLICT DO UPDATE
abbrev bumped : String → List EvidenceRevision → List EvidenceRevision
bumped profile_id rows =
    if any (of_profile profile_id) rows
    then update_where (of_profile profile_id) next_revision rows
    else rows ++ record { profile_id = profile_id; revision = 1 } ∷ []

unfoldable pub bump_evidence_revision : String → KeyStore → KeyStore
bump_evidence_revision profile_id s = record s { revisions = bumped profile_id s.revisions }

-- The primary key of an alias is its identity.
abbrev pub at_identity : Identity → TargetKeyAlias → Bool
at_identity i a = eq_identity (identity_of a) i

-- The row of an alias that is stored already: it keeps its first `created_at`.
abbrev pub rewritten : TargetKeyAlias → TargetKeyAlias → TargetKeyAlias
rewritten alias row = record alias { created_at = row.created_at }

abbrev pub put_alias : TargetKeyAlias → List TargetKeyAlias → List TargetKeyAlias
put_alias alias rows =
    if any (at_identity (identity_of alias)) rows
    then update_where (at_identity (identity_of alias)) (rewritten alias) rows
    else rows ++ alias ∷ []

abbrev stored_as : TargetKeyAlias → Option TargetKeyAlias → TargetKeyAlias
stored_as alias none = alias
stored_as alias (some row) = rewritten alias row

abbrev pub same_type : EvidenceTargetType → EvidenceTargetType → Bool
same_type a b = eqb (target_type_index a) (target_type_index b)

-- The WHERE test of `_require_acyclic`
abbrev pub beside : TargetKeyAlias → TargetKeyAlias → Bool
beside alias row =
    row.profile_id == alias.profile_id
    && same_type row.target_type alias.target_type
    && is_active row.status
    && not (row.alias_key == alias.alias_key)

unfoldable pub require_acyclic : TargetKeyAlias → KeyStore → Result Error (List Entry)
require_acyclic alias s = key_alias_map (filter (beside alias) s.aliases ++ alias ∷ [])

-- `SqliteTargetKeyAliasRepository.upsert` after the test for a cycle
abbrev write_alias : TargetKeyAlias → Exec Error KeyStore TargetKeyAlias
write_alias alias s = (
  ok (stored_as alias (find (at_identity (identity_of alias)) s.aliases)),
  bump_evidence_revision alias.profile_id (record s { aliases = put_alias alias s.aliases }),
)

abbrev pub acyclic_if_active : TargetKeyAlias → KeyStore → Result Error (List Entry)
acyclic_if_active alias s = if is_active alias.status then require_acyclic alias s else ok []

unfoldable pub upsert : TargetKeyAlias → Exec Error KeyStore TargetKeyAlias
unfolding require_acyclic bump_evidence_revision
upsert alias = do s ← gets (λ s. s); checked ← lift (acyclic_if_active alias s); write_alias alias

unfoldable pub get : Identity → KeyStore → Option TargetKeyAlias
get i s = find (at_identity i) s.aliases

-- ORDER BY target_type, alias_key
abbrev alias_before : TargetKeyAlias → TargetKeyAlias → Bool
alias_before a b = not (
    ltb (type_order b.target_type) (type_order a.target_type)
    || (same_type a.target_type b.target_type && lt_text b.alias_key a.alias_key))

abbrev pub has_status : Option TargetKeyAliasStatus → TargetKeyAlias → Bool
has_status none a = true
has_status (some status) a = eqb (status_index a.status) (status_index status)

-- `list_for_profile`
unfoldable pub list_aliases : String → Option TargetKeyAliasStatus → KeyStore → List TargetKeyAlias
list_aliases profile_id status s =
    sort_by alias_before (filter (λ a. a.profile_id == profile_id && has_status status a) s.aliases)

unfoldable pub remove : Identity → KeyStore → Bool × KeyStore
unfolding bump_evidence_revision
remove i s =
    if any (at_identity i) s.aliases
    then (
      true,
      bump_evidence_revision i.profile_id
          (record s { aliases = delete_where (at_identity i) s.aliases }),
    )
    else (false, s)
