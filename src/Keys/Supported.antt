-- ===== src/Keys/Supported.antt =====
-- storage/key_aliases.py: `_supported_keys` and `prune_unsupported_keys`. A set is a list, of which
-- only the membership matters; the loop runs on fuel, of which one more than the number of the
-- active aliases is enough.
use soulmate.Prelude.{
  ℕ, zero, suc, String, Bool, true, false, not, ◌&&◌, ◌||◌, List, [], ◌∷◌, ◌==◌, any, length, map,
  filter, delete_where, if◌then◌else◌,
}
use soulmate.Exec.{Result, ok, err, Exec, lift, gets, modify, ◌>>=◌}
use soulmate.Keys.Records.{EvidenceTargetType, TargetKeyAlias, is_active}
use soulmate.Keys.Aliases.{Error, out_of_fuel}
use soulmate.Keys.Store.{KeyStore, same_type}
use soulmate.Domain.Evidence.{Evidence, TargetKeyLabel, TargetKeyEmbedding}

-- `_TypedKey`
abbrev pub TypedKey : Type 0
TypedKey = EvidenceTargetType × String

abbrev pub eq_typed : TypedKey → TypedKey → Bool
eq_typed (a, k) (b, l) = same_type a b && k == l

abbrev pub typed_in : TypedKey → List TypedKey → Bool
typed_in k keys = any (λ j. eq_typed j k) keys

abbrev pub alias_of : TargetKeyAlias → TypedKey
alias_of a = (a.target_type, a.alias_key)

abbrev pub canonical_of : TargetKeyAlias → TypedKey
canonical_of a = (a.target_type, a.canonical_key)

abbrev pub evidence_key : Evidence → TypedKey
evidence_key e = (e.target_type, e.target_key)

unfoldable pub evidence_keys : String → KeyStore → List TypedKey
evidence_keys profile_id s =
    map evidence_key (filter (λ (e : Evidence). e.profile_id == profile_id) s.evidence)

unfoldable pub active_aliases : String → List TargetKeyAlias → List TargetKeyAlias
active_aliases profile_id rows = filter (λ a. a.profile_id == profile_id && is_active a.status) rows

abbrev Growth : Type 0
Growth = List TypedKey × Bool

-- The body of the inner loop
abbrev carry : TargetKeyAlias → Growth → Growth
carry row (supported, grown) =
    if typed_in (alias_of row) supported && not (typed_in (canonical_of row) supported)
    then (canonical_of row ∷ supported, true)
    else (supported, grown)

-- The inner loop
unfoldable pub pass : List TargetKeyAlias → Growth → Growth
pass [] g = g
pass (row ∷ active) g = pass active (carry row g)

-- `while grown`
abbrev while_grown :
    Growth → (List TypedKey → Result Error (List TypedKey)) → Result Error (List TypedKey)
while_grown (supported, true) again = again supported
while_grown (supported, false) again = ok supported

-- The outer loop
unfoldable pub grow : ℕ → List TargetKeyAlias → List TypedKey → Result Error (List TypedKey)
grow zero active supported = err out_of_fuel
grow (suc n) active supported = while_grown (pass active (supported, false)) (grow n active)

-- `_supported_keys`
unfoldable pub supported_keys : String → KeyStore → Result Error (List TypedKey)
supported_keys profile_id s =
    let active = active_aliases profile_id s.aliases in
    grow (suc (length active)) active (evidence_keys profile_id s)

-- Rows of the profile whose required keys are not all supported.
abbrev pub alias_unsupported : String → List TypedKey → TargetKeyAlias → Bool
alias_unsupported profile_id keys a =
    a.profile_id == profile_id
    && not (typed_in (alias_of a) keys && (is_active a.status || typed_in (canonical_of a) keys))

abbrev pub label_unsupported : String → List TypedKey → TargetKeyLabel → Bool
label_unsupported profile_id keys l =
    l.profile_id == profile_id && not (typed_in (l.target_type, l.key) keys)

abbrev pub embedding_unsupported : String → List TypedKey → TargetKeyEmbedding → Bool
embedding_unsupported profile_id keys e =
    e.profile_id == profile_id && not (typed_in (e.target_type, e.key) keys)

abbrev pub pruned : String → List TypedKey → KeyStore → KeyStore
pruned profile_id keys s = record s {
  aliases = delete_where (alias_unsupported profile_id keys) s.aliases;
  catalog = delete_where (label_unsupported profile_id keys) s.catalog;
  embeddings = delete_where (embedding_unsupported profile_id keys) s.embeddings;
}

unfoldable pub prune_unsupported_keys : String → Exec Error KeyStore Unit
prune_unsupported_keys profile_id = do
  s ← gets (λ s. s)
  keys ← lift (supported_keys profile_id s)
  modify (pruned profile_id keys)
