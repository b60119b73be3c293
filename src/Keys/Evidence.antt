-- ===== src/Keys/Evidence.antt =====
-- The evidence repository (storage/repositories.py) and the order of its lists.
use soulmate.Prelude.{
  ℕ, String, Bool, true, false, not, ◌&&◌, ◌||◌, Option, none, some, List, ◌==◌, find, filter,
  sort_by, delete_where, ltb, eqb,
}
use soulmate.Exec.{Exec, pure, gets, modify, ◌>>=◌, ◌>>◌}
use soulmate.Text.Order.{lt_text}
use soulmate.Keys.Aliases.{Error}
use soulmate.Keys.Store.{KeyStore, EvidenceRevision, of_profile, bump_evidence_revision}
use soulmate.Keys.Supported.{prune_unsupported_keys}
use soulmate.Domain.Evidence.{Evidence}

-- ORDER BY created_at, id
abbrev earlier : Evidence → Evidence → Bool
earlier a b =
    not (ltb b.created_at a.created_at || (eqb a.created_at b.created_at && lt_text b.id a.id))

abbrev revision_of : Option EvidenceRevision → ℕ
revision_of none = 0
revision_of (some r) = r.revision

unfoldable current_revision : String → KeyStore → ℕ
current_revision profile_id s = revision_of (find (of_profile profile_id) s.revisions)

unfoldable pub list_for_profile : String → KeyStore → List Evidence
list_for_profile profile_id s =
    sort_by earlier (filter (λ e. e.profile_id == profile_id) s.evidence)

unfoldable list_for_profile_with_revision : String → KeyStore → List Evidence × ℕ
list_for_profile_with_revision profile_id s =
    (list_for_profile profile_id s, current_revision profile_id s)

unfoldable pub list_for_target : String → String → KeyStore → List Evidence
list_for_target profile_id key s =
    sort_by earlier (filter (λ e. e.profile_id == profile_id && e.target_key == key) s.evidence)

unfoldable pub get_evidence : String → KeyStore → Option Evidence
get_evidence evidence_id s = find (λ e. e.id == evidence_id) s.evidence

abbrev remove_row : String → Option Evidence → Exec Error KeyStore Bool
remove_row evidence_id none = pure false
remove_row evidence_id (some e) = do
  modify (λ s. record s { evidence = delete_where (λ e. e.id == evidence_id) s.evidence })
  prune_unsupported_keys e.profile_id
  modify (bump_evidence_revision e.profile_id)
  pure true

unfoldable pub remove_evidence : String → Exec Error KeyStore Bool
remove_evidence evidence_id = do
  found ← gets (get_evidence evidence_id)
  remove_row evidence_id found
