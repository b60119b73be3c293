-- ===== src/Keys/Propose.antt =====
-- core/keys/proposals.py, and `register_normalized_aliases` of daemon/key_aliases.py. The dict of
-- groups is the list of its entries in the order of insertion.
use soulmate.Prelude.{
  ℕ, String, Bool, not, ◌&&◌, ◌||◌, Option, none, some, List, [], ◌∷◌, ◌++◌, ◌==◌, all, find,
  filter, map, text_in, if◌then◌else◌, length, ltb,
}
use soulmate.Exec.{Result, ok, err, bind}
use soulmate.Float.{pos}
use soulmate.Keys.Records.{EvidenceTargetType, TargetKeyAlias, normalized, active}
use soulmate.Keys.Aliases.{Identity, Entry, Error, key_alias_map, resolve}
use soulmate.Keys.Store.{KeyStore, upsert, list_aliases}
use soulmate.Keys.Supported.{TypedKey, eq_typed, typed_in, alias_of, evidence_key}
use soulmate.Keys.Evidence.{list_for_profile}
use soulmate.Keys.Normalize.{normalize_key, key_normalizer_version}

-- A group of keys under its type and normalized form
pub record Group : Type 0 where
  pub label : TypedKey
  pub members : List String

abbrev add_member : String → Group → Group
add_member key g = if text_in key g.members then g else record g { members = g.members ++ key ∷ [] }

-- `groups.setdefault((target_type, normalized), [])` and `append` of a new key
unfoldable pub join_group : TypedKey → String → List Group → List Group
join_group label key [] = record { label = label; members = key ∷ [] } ∷ []
join_group label key (g ∷ groups) =
    let rest = join_group label key groups in
    if eq_typed g.label label then add_member key g ∷ groups else g ∷ rest

module _ (casefold : String → String) where
  abbrev grouped_at : TypedKey → Option String → List Group → List Group
  grouped_at key none groups = groups
  grouped_at (target_type, key) (some n) groups = join_group (target_type, n) key groups

  unfoldable pub group_keys : List TypedKey → List Group → List Group
  unfolding normalize_key
  group_keys [] groups = groups
  group_keys (key ∷ keys) groups =
      group_keys keys (grouped_at key (normalize_key casefold key.1) groups)

abbrev typed_identity : String → TypedKey → Identity
typed_identity profile_id (target_type, key) = record {
  profile_id = profile_id;
  target_type = target_type;
  key = key;
}

module _ (profile_id : String) (resolved : List Entry) (aliased : List TypedKey) where
  -- The key that an aliased key of the group resolves to
  abbrev target_of : EvidenceTargetType → String → String
  target_of target_type key = (resolve resolved (typed_identity profile_id (target_type, key))).key

  -- The test of the loop of `_canonical`
  abbrev leads_inside : Group → String → Bool
  leads_inside g key =
      typed_in (g.label.0, key) aliased
      && not (target_of g.label.0 key == key)
      && text_in (target_of g.label.0 key) g.members

  abbrev canonical_from : Group → Option String → Option String
  canonical_from g (some key) = some (target_of g.label.0 key)
  canonical_from g none =
      if text_in g.label.1 g.members
      then some g.label.1
      else find (λ key. not (typed_in (g.label.0, key) aliased)) g.members

  -- `_canonical`; `none` is the `StopIteration` of `next`.
  unfoldable pub canonical : Group → Option String
  canonical g = canonical_from g (find (leads_inside g) g.members)

  abbrev proposal : EvidenceTargetType → String → ℕ → String → TargetKeyAlias
  proposal target_type canonical_key now key = record {
    profile_id = profile_id;
    target_type = target_type;
    alias_key = key;
    canonical_key = canonical_key;
    polarity = pos 1;
    method = normalized;
    status = active;
    algorithm_version = key_normalizer_version;
    created_at = now;
    updated_at = now;
    similarity = none;
  }

  abbrev to_canonical : Group → ℕ → Option String → List TargetKeyAlias
  to_canonical g now none = []
  to_canonical g now (some c) =
      map (proposal g.label.0 c now)
        (filter (λ key. not (key == c || typed_in (g.label.0, key) aliased)) g.members)

  abbrev settled : Group → Bool
  settled g = ltb (length g.members) 2 || all (λ key. typed_in (g.label.0, key) aliased) g.members

  unfoldable pub group_proposals : Group → ℕ → List TargetKeyAlias
  group_proposals g now = if settled g then [] else to_canonical g now (canonical g)

  unfoldable pub all_proposals : List Group → ℕ → List TargetKeyAlias
  all_proposals [] now = []
  all_proposals (g ∷ groups) now = group_proposals g now ++ all_proposals groups now

module _ (casefold : String → String) where
  abbrev own_aliases : String → List TargetKeyAlias → List TargetKeyAlias
  own_aliases profile_id aliases = filter (λ a. a.profile_id == profile_id) aliases

  -- `propose_normalized_aliases`
  unfoldable pub propose_normalized_aliases :
      String → List TypedKey → List TargetKeyAlias → ℕ → Result Error (List TargetKeyAlias)
  propose_normalized_aliases profile_id keys aliases now =
      let own = own_aliases profile_id aliases in
      bind (key_alias_map own) λ resolved.
        ok (all_proposals profile_id resolved (map alias_of own) (group_keys casefold keys []) now)

-- The loop of `register_normalized_aliases`: an alias that would close a cycle is left out.
abbrev stored_too : Result Error TargetKeyAlias → List TargetKeyAlias → List TargetKeyAlias
stored_too (ok row) stored = row ∷ stored
stored_too (err e) stored = stored

unfoldable pub store_proposals : List TargetKeyAlias → KeyStore → List TargetKeyAlias × KeyStore
store_proposals [] s = ([], s)
store_proposals (a ∷ proposals) s =
    let (r, s1) = upsert a s in
    let (stored, s2) = store_proposals proposals s1 in (stored_too r stored, s2)

abbrev pub store_all :
    Result Error (List TargetKeyAlias) → KeyStore → Result Error (List TargetKeyAlias) × KeyStore
store_all (err e) s = (err e, s)
store_all (ok proposals) s = let (stored, s') = store_proposals proposals s in (ok stored, s')

module _ (casefold : String → String) where
  -- `register_normalized_aliases`, with a repository of aliases
  unfoldable pub register_normalized_aliases :
      String → ℕ → KeyStore → Result Error (List TargetKeyAlias) × KeyStore
  register_normalized_aliases profile_id now s =
      let keys = map evidence_key (list_for_profile profile_id s) in
      store_all
        (propose_normalized_aliases casefold profile_id keys (list_aliases profile_id none s) now) s
