-- ===== src/Keys/Labels.antt =====
-- The catalog of storage/key_metadata.py and `KeyLabelService` of daemon/key_labels.py. The JSON
-- text of the aliases is read back as it was written.
use soulmate.Prelude.{
  ℕ, zero, suc, String, Bool, true, false, not, ◌&&◌, ◌||◌, Option, none, some, List, [], ◌∷◌, ◌++◌,
  ◌==◌, any, find, filter, sort_by, update_where, delete_where, is_none, if◌then◌else◌, ltb,
  text_in,
}
use Prim.Native.String.{String}
use soulmate.Exec.{ok, err, Exec, raise_if, gets, ◌>>=◌, ◌>>◌}
use soulmate.Text.{strip, is_empty, is_blank}
use soulmate.Text.Order.{lt_text}
use soulmate.Keys.Records.{EvidenceTargetType, type_order}
use soulmate.Keys.Store.{KeyStore, same_type, bump_evidence_revision}
use soulmate.Keys.Evidence.{list_for_target}
use soulmate.DecisionIo.Provenance.{is_nil}
use soulmate.Domain.Evidence.{
  Evidence, TargetKeyLabel, TargetKeyLabelSource, extracted, owner, label_ok,
}

abbrev pub is_owner_label : TargetKeyLabelSource → Bool
is_owner_label owner = true
is_owner_label extracted = false

-- The primary key of a label
abbrev pub label_at : String → EvidenceTargetType → String → TargetKeyLabel → Bool
label_at profile_id target_type key l =
    l.profile_id == profile_id && same_type l.target_type target_type && l.key == key

abbrev pub same_label : TargetKeyLabel → TargetKeyLabel → Bool
same_label entry = label_at entry.profile_id entry.target_type entry.key

abbrev pub relabelled : TargetKeyLabel → TargetKeyLabel → TargetKeyLabel
relabelled entry row = record entry { created_at = row.created_at }

-- An owner label changes the text that is embedded, so the derived vectors are stale.
abbrev pub bump_if : Bool → String → KeyStore → KeyStore
bump_if true profile_id s = bump_evidence_revision profile_id s
bump_if false profile_id s = s

abbrev pub store_label :
    TargetKeyLabel → Option TargetKeyLabel → KeyStore → TargetKeyLabel × KeyStore
store_label entry none s = (
  entry,
  bump_if (is_owner_label entry.source) entry.profile_id
      (record s { catalog = s.catalog ++ entry ∷ [] }),
)
store_label entry (some row) s =
    if is_owner_label row.source && not (is_owner_label entry.source) then (row, s) else (
      relabelled entry row,
      bump_if (is_owner_label entry.source) entry.profile_id
          (record s { catalog = update_where (same_label entry) (relabelled entry) s.catalog }),
    )

-- `SqliteTargetKeyCatalogRepository.upsert`
unfoldable pub upsert_label : TargetKeyLabel → KeyStore → TargetKeyLabel × KeyStore
upsert_label entry s = store_label entry (find (same_label entry) s.catalog) s

unfoldable pub get_label : String → EvidenceTargetType → String → KeyStore → Option TargetKeyLabel
get_label profile_id target_type key s = find (label_at profile_id target_type key) s.catalog

abbrev label_before : TargetKeyLabel → TargetKeyLabel → Bool
label_before a b = not (
    ltb (type_order b.target_type) (type_order a.target_type)
    || (same_type a.target_type b.target_type && lt_text b.key a.key))

unfoldable list_labels : String → KeyStore → List TargetKeyLabel
list_labels profile_id s = sort_by label_before (filter (λ l. l.profile_id == profile_id) s.catalog)

unfoldable pub remove_label : String → EvidenceTargetType → String → KeyStore → Bool × KeyStore
unfolding bump_evidence_revision
remove_label profile_id target_type key s =
    if any (label_at profile_id target_type key) s.catalog
    then (
      true,
      bump_evidence_revision profile_id
          (record s { catalog = delete_where (label_at profile_id target_type key) s.catalog }),
    )
    else (false, s)

-- `s[:n]` and `xs[:n]`
abbrev pub slice : ℕ → String → String
slice zero s = String.[]
slice (suc n) String.[] = String.[]
slice (suc n) (String.◌∷◌ c s) = String.◌∷◌ c (slice n s)

abbrev pub take {ℓ} : {A : Type ℓ} → ℕ → List A → List A
take zero xs = []
take (suc n) [] = []
take (suc n) (x ∷ xs) = x ∷ take n xs

abbrev pub label_max_length : ℕ
label_max_length = 200

abbrev pub alias_max_count : ℕ
alias_max_count = 5

abbrev pub is_text : Option String → String → Bool
is_text none s = false
is_text (some t) s = s == t

-- The body of the loop of `clean_aliases`
abbrev pub keep_alias : Option String → String → List String → List String
keep_alias label value kept =
    let trimmed = slice label_max_length (strip value) in
    if is_empty trimmed || is_text label trimmed || text_in trimmed kept
    then kept
    else kept ++ trimmed ∷ []

unfoldable pub clean_all : List String → Option String → List String → List String
clean_all [] label kept = kept
clean_all (value ∷ values) label kept = clean_all values label (keep_alias label value kept)

unfoldable pub clean_aliases : List String → Option String → List String
clean_aliases values label = take alias_max_count (clean_all values label [])

abbrev pub trimmed_label : Option String → Option String
trimmed_label none = none
trimmed_label (some l) = if is_blank l then none else some (slice label_max_length (strip l))

-- `KeyError` for a key without evidence, `KeyLabelError` for a label that names nothing, and the
-- `ValueError` of the constructor, which is never raised.
pub data LabelError : Type 0 where
  key_unused nothing_to_name value_error : LabelError

abbrev pub uses : String → EvidenceTargetType → String → KeyStore → Bool
uses profile_id target_type key s =
    any (λ (e : Evidence). same_type e.target_type target_type) (list_for_target profile_id key s)

abbrev pub first_written : ℕ → Option TargetKeyLabel → ℕ
first_written now none = now
first_written now (some l) = l.created_at

abbrev pub owner_label :
    String
    → EvidenceTargetType
    → String
    → Option String
    → List String
    → ℕ
    → KeyStore
    → TargetKeyLabel
owner_label profile_id target_type key label aliases now s = record {
  profile_id = profile_id;
  target_type = target_type;
  key = key;
  label = label;
  aliases = aliases;
  source = owner;
  created_at = first_written now (get_label profile_id target_type key s);
  updated_at = now;
}

abbrev pub write_label : TargetKeyLabel → Exec LabelError KeyStore TargetKeyLabel
write_label entry s = let (row, s') = upsert_label entry s in (ok row, s')

-- `KeyLabelService.set_label`
unfoldable pub set_label :
    String
    → EvidenceTargetType
    → String
    → Option String
    → List String
    → ℕ
    → Exec LabelError KeyStore TargetKeyLabel
set_label profile_id target_type key label aliases now = do
  used ← gets (uses profile_id target_type key)
  raise_if (not used) key_unused
  let trimmed = trimmed_label label
  let cleaned = clean_aliases aliases trimmed
  raise_if (is_none trimmed && is_nil cleaned) nothing_to_name
  entry ← gets (owner_label profile_id target_type key trimmed cleaned now)
  raise_if (not (label_ok entry)) value_error
  write_label entry

-- `KeyLabelService.remove`
unfoldable pub drop_label : String → EvidenceTargetType → String → Exec LabelError KeyStore Unit
drop_label profile_id target_type key s =
    let (removed, s') = remove_label profile_id target_type key s in
    (if removed then ok tt else err key_unused, s')
