-- ===== src/Keys/Scenarios.antt =====
-- Normalization, proposals and pruning at concrete keys.
use soulmate.Prelude.{
  false, ◌⊎◌, String, ◌≡◌, refl, true, some, none, List, [], ◌∷◌, find, filter, sort_by, insert_by,
  update_where, delete_where, ◌↔◌, ◌≢◌, Member, ◌==◌,
}
use soulmate.Exec.{ok, err}
use soulmate.Text.{is_space, strip, lstrip, rstrip}
use soulmate.Text.Order.{lt_text}
use soulmate.Text.Split.{split, join, strip_char, lstrip_char, rstrip_char, squeeze}
use soulmate.Float.{pos, one_float, in_unit, le_float}
use soulmate.Json.{null, no_fields}
use soulmate.Keys.Records.{TargetKeyAlias, fact, owner, active, normalized}
use soulmate.Keys.Aliases.{
  Identity, key_alias_map, collect, lookup, follow_all, follow, follow_loop, resolve,
}
use soulmate.Keys.Store.{KeyStore, upsert, require_acyclic, bump_evidence_revision, list_aliases}
use soulmate.Keys.Normalize.{is_separator, segment, without_filler, normalize_key}
use soulmate.Keys.Propose.{
  join_group, group_keys, canonical, group_proposals, all_proposals, propose_normalized_aliases,
  store_proposals,
}
use soulmate.Domain.Evidence.{Evidence, evidence_ok, TargetKeyLabel, TargetKeyLabelSource}
use soulmate.Keys.Supported.{
  TypedKey, typed_in, evidence_keys, active_aliases, pass, grow, supported_keys,
  prune_unsupported_keys,
}
use soulmate.Keys.Closure.{supported_keys_iff}
use soulmate.Keys.Passes.{Supported}
use soulmate.Keys.Prune.{prune_once, prune-labels}
use soulmate.Keys.Acyclic.{Builds}
use soulmate.Keys.History.{create_alias, add_evidence, after, empty, step, Reachable-Builds}
use soulmate.Keys.Ownership.{labelled_at, upsert_all, owner_label_stays}
use soulmate.Keys.Labels.{
  set_label, key_unused, nothing_to_name, uses, trimmed_label, clean_aliases, get_label,
}
use soulmate.Keys.Setting.{expected, set_label_lem}

-- Case folding of texts in lower case
abbrev lower : String → String
lower s = s

normalizes : normalize_key lower " ui / theme-dark__mode ..x level" ≡ some "ui_theme_dark_mode.x"
unfolding normalize_key segment without_filler is_separator is_space strip lstrip rstrip squeeze
    strip_char lstrip_char rstrip_char split join filter
normalizes = refl

abbrev said : String → String → Evidence
said id key = record {
  id = id;
  profile_id = "owner";
  target_type = fact;
  target_key = key;
  value = null;
  strength = one_float;
  confidence = one_float;
  context = no_fields;
  source_type = "explicit_statement";
  source_event_id = "event";
  extractor_version = "v1";
  created_at = 1;
  extractor_model = none;
  source_message_id = none;
}

abbrev alias : String → String → TargetKeyAlias
alias key canonical_key = record {
  profile_id = "owner";
  target_type = fact;
  alias_key = key;
  canonical_key = canonical_key;
  polarity = pos 1;
  method = owner;
  status = active;
  algorithm_version = "owner-alias-v1";
  created_at = 1;
  updated_at = 1;
  similarity = none;
}

-- The owner has joined a_b to x-y and x_y to a-b.
abbrev crossed : KeyStore
crossed = record {
  evidence = said "e1" "a-b" ∷ said "e2" "a_b" ∷ said "e3" "x-y" ∷ said "e4" "x_y" ∷ [];
  revisions = [];
  aliases = alias "a_b" "x-y" ∷ alias "x_y" "a-b" ∷ [];
  catalog = [];
  embeddings = [];
}

abbrev joined : String → String → TargetKeyAlias
joined key canonical_key = record (alias key canonical_key) {
  method = normalized;
  algorithm_version = "key-normalizer-v1";
  created_at = 2;
  updated_at = 2;
}

-- One call proposes two aliases that together close a cycle: a-b, a_b, x-y, x_y and back.
proposes_both :
    propose_normalized_aliases lower "owner"
      ((fact, "a-b") ∷ (fact, "a_b") ∷ (fact, "x-y") ∷ (fact, "x_y") ∷ [])
      (list_aliases "owner" none crossed)
      2
    ≡ ok (joined "a-b" "a_b" ∷ joined "x-y" "x_y" ∷ [])
unfolding propose_normalized_aliases key_alias_map collect lookup follow_all follow follow_loop
    resolve filter group_keys join_group all_proposals group_proposals canonical normalize_key
    segment without_filler is_separator is_space strip lstrip rstrip squeeze strip_char lstrip_char
    rstrip_char split join find list_aliases sort_by insert_by lt_text
proposes_both = refl

-- The repository refuses the second.
stores_one :
    (store_proposals (joined "a-b" "a_b" ∷ joined "x-y" "x_y" ∷ []) crossed).0
    ≡ joined "a-b" "a_b" ∷ []
unfolding store_proposals upsert require_acyclic key_alias_map collect lookup follow_all follow
    follow_loop filter find update_where bump_evidence_revision
stores_one = refl

abbrev labelled : TargetKeyLabel
labelled = record {
  profile_id = "owner";
  target_type = fact;
  key = "x-y";
  label = some "X";
  aliases = [];
  source = TargetKeyLabelSource.owner;
  created_at = 1;
  updated_at = 1;
}

-- A store in which one alias carries the only evidence onto a labelled key.
abbrev carrying : KeyStore
carrying = record {
  evidence = said "e1" "a_b" ∷ [];
  revisions = [];
  aliases = alias "a_b" "x-y" ∷ alias "gone" "x-y" ∷ [];
  catalog = labelled ∷ record labelled { key = "gone" } ∷ [];
  embeddings = [];
}

prunes_gone :
    prune_unsupported_keys "owner" carrying
    ≡ (ok tt, record carrying { aliases = alias "a_b" "x-y" ∷ []; catalog = labelled ∷ [] })
unfolding prune_unsupported_keys supported_keys evidence_keys active_aliases pass grow filter
    delete_where
prunes_gone = refl

supported_keys_iff_example :
    (keys : List TypedKey) × (supported_keys "owner" carrying ≡ ok keys)
    × ((k : TypedKey)
        → (typed_in k keys ≡ true)
          ↔ Supported (evidence_keys "owner" carrying) (active_aliases "owner" carrying.aliases) k)
supported_keys_iff_example = supported_keys_iff "owner" carrying

prune_once_example :
    ((prune_unsupported_keys "owner" carrying).0 ≡ ok tt)
    × (prune_unsupported_keys "owner" (prune_unsupported_keys "owner" carrying).1
        ≡ (ok tt, (prune_unsupported_keys "owner" carrying).1))
prune_once_example = prune_once "owner" carrying

prune-labels_example : Member labelled (prune_unsupported_keys "owner" carrying).1.catalog ↔ (
    Member labelled carrying.catalog
    × ((labelled.profile_id == "owner") ≡ true
        → Supported
            (evidence_keys "owner" carrying)
            (active_aliases "owner" carrying.aliases)
            (labelled.target_type, labelled.key)))
prune-labels_example = prune-labels "owner" carrying labelled

abbrev no_keys : KeyStore
no_keys = record { evidence = []; revisions = []; aliases = []; catalog = []; embeddings = [] }

abbrev reviewed_store : KeyStore
reviewed_store =
    after lower (create_alias "owner" fact "a" "b" (pos 1) 2)
      (after lower (add_evidence (said "e1" "a")) no_keys)

Reachable-Builds_example : Builds reviewed_store.aliases
Reachable-Builds_example =
    Reachable-Builds lower reviewed_store (
      step (create_alias "owner" fact "a" "b" (pos 1) 2)
        (step (add_evidence (said "e1" "a")) empty))

abbrev extracted_label : TargetKeyLabel
extracted_label = record labelled { label = some "Y"; source = TargetKeyLabelSource.extracted }

abbrev at_xy : Identity
at_xy = record { profile_id = "owner"; target_type = fact; key = "x-y" }

owner_label_stays_example :
    find (labelled_at at_xy) (upsert_all (extracted_label ∷ []) carrying).catalog ≡ some labelled
owner_label_stays_example =
    owner_label_stays at_xy (extracted_label ∷ []) carrying labelled (unfold find in refl) refl
      (refl, tt)

abbrev a_b_label : TargetKeyLabel
a_b_label = expected "owner" fact "a_b" (some " A ") (" B " ∷ "A" ∷ []) 3 carrying

set_label_lem_example :
    (uses "owner" fact "a_b" carrying ≡ false
      → set_label "owner" fact "a_b" (some " A ") (" B " ∷ "A" ∷ []) 3 carrying
        ≡ (err key_unused, carrying))
    × (uses "owner" fact "a_b" carrying ≡ true
        → trimmed_label (some " A ") ≡ none
        → clean_aliases (" B " ∷ "A" ∷ []) none ≡ []
        → set_label "owner" fact "a_b" (some " A ") (" B " ∷ "A" ∷ []) 3 carrying
          ≡ (err nothing_to_name, carrying))
    × (uses "owner" fact "a_b" carrying ≡ true
        → (trimmed_label (some " A ") ≢ none)
          ⊎ (clean_aliases (" B " ∷ "A" ∷ []) (trimmed_label (some " A ")) ≢ [])
        → let out = set_label "owner" fact "a_b" (some " A ") (" B " ∷ "A" ∷ []) 3 carrying in
          (out.0 ≡ ok a_b_label) × (get_label "owner" fact "a_b" out.1 ≡ some a_b_label))
set_label_lem_example =
    set_label_lem "owner" fact "a_b" (some " A ") (" B " ∷ "A" ∷ []) 3 carrying
      (unfold evidence_ok in_unit le_float one_float in (refl, tt))
