-- ===== src/Keys/Aliases.antt =====
-- `_follow` and `KeyAliasMap`. A dict is a list of its entries, and the loop of `_follow` runs on
-- fuel, of which the number of the entries and one more are enough.
use soulmate.Prelude.{
  ℕ, zero, suc, String, Bool, true, false, ◌&&◌, Option, none, some, List, [], ◌∷◌, ◌++◌, ◌==◌,
  text_in, length, if◌then◌else◌, eqb,
}
use soulmate.Exec.{Result, ok, err, bind}
use soulmate.Float.{ℤ, pos}
use soulmate.Keys.Records.{
  EvidenceTargetType, target_type_index, TargetKeyAlias, is_active, eq_int, times_int,
}

-- `_Identity`
pub record Identity : Type 0 where
  pub profile_id : String
  pub target_type : EvidenceTargetType
  pub key : String

abbrev pub eq_identity : Identity → Identity → Bool
eq_identity a b =
    a.profile_id == b.profile_id
    && eqb (target_type_index a.target_type) (target_type_index b.target_type)
    && a.key == b.key

pub record ResolvedKey : Type 0 where
  pub key : String
  pub polarity : ℤ

abbrev pub eq_resolved : ResolvedKey → ResolvedKey → Bool
eq_resolved a b = a.key == b.key && eq_int a.polarity b.polarity

abbrev pub Entry : Type 0
Entry = Identity × ResolvedKey

-- `dict.get`
unfoldable pub lookup : Identity → List Entry → Option ResolvedKey
lookup i [] = none
lookup i (e ∷ entries) = if eq_identity e.0 i then some e.1 else lookup i entries

-- The two messages of `ValueError`; the loop is never out of fuel.
pub data Error : Type 0 where
  alias_cycle conflicting_aliases out_of_fuel : Error

abbrev pub at_key : Identity → String → Identity
at_key i key = record i { key = key }

-- One pass of the loop of `_follow`, with the passes after it.
abbrev advance :
    String
    → ℤ
    → List String
    → (ResolvedKey → Result Error ResolvedKey)
    → Option ResolvedKey
    → Result Error ResolvedKey
advance current polarity seen go none = ok (record { key = current; polarity = polarity })
advance current polarity seen go (some step) =
    if text_in step.key seen then err alias_cycle else go step

-- The loop from its state `current`, `polarity`, `seen`.
unfoldable pub follow_loop :
    ℕ → List Entry → Identity → String → ℤ → List String → Result Error ResolvedKey
follow_loop zero direct i current polarity seen = err out_of_fuel
follow_loop (suc n) direct i current polarity seen =
    advance current polarity seen
      (λ step. follow_loop n direct i step.key (times_int polarity step.polarity) (step.key ∷ seen))
      (lookup (at_key i current) direct)

-- `_follow`
unfoldable pub follow : List Entry → Identity → Result Error ResolvedKey
follow direct i = follow_loop (suc (length direct)) direct i i.key (pos 1) (i.key ∷ [])

abbrev pub identity_of : TargetKeyAlias → Identity
identity_of a = record { profile_id = a.profile_id; target_type = a.target_type; key = a.alias_key }

abbrev pub resolved_of : TargetKeyAlias → ResolvedKey
resolved_of a = record { key = a.canonical_key; polarity = a.polarity }

-- `direct[identity] = resolved`, for an entry that is new or equal to the stored one
abbrev pub put_direct : TargetKeyAlias → List Entry → Option ResolvedKey → Result Error (List Entry)
put_direct a direct none = ok (direct ++ (identity_of a, resolved_of a) ∷ [])
put_direct a direct (some r) =
    if eq_resolved r (resolved_of a) then ok direct else err conflicting_aliases

-- One pass of the first loop of `KeyAliasMap.__init__`, with the passes after it.
abbrev collect_next :
    Bool
    → TargetKeyAlias
    → List Entry
    → (List Entry → Result Error (List Entry))
    → Result Error (List Entry)
collect_next false a direct go = go direct
collect_next true a direct go = bind (put_direct a direct (lookup (identity_of a) direct)) go

-- The first loop of `KeyAliasMap.__init__`
unfoldable pub collect : List TargetKeyAlias → List Entry → Result Error (List Entry)
collect [] direct = ok direct
collect (a ∷ aliases) direct = collect_next (is_active a.status) a direct (λ d. collect aliases d)

-- `{identity: _follow(direct, identity) for identity in direct}`
unfoldable pub follow_all : List Entry → List Entry → Result Error (List Entry)
follow_all direct [] = ok []
follow_all direct (e ∷ entries) =
    bind (follow direct e.0) λ r. bind (follow_all direct entries) λ rest. ok ((e.0, r) ∷ rest)

-- `KeyAliasMap(aliases)`, as the dict of its resolved keys
unfoldable pub key_alias_map : List TargetKeyAlias → Result Error (List Entry)
key_alias_map aliases = bind (collect aliases []) λ direct. follow_all direct direct

abbrev get_or : Option ResolvedKey → ResolvedKey → ResolvedKey
get_or none default = default
get_or (some r) default = r

-- `KeyAliasMap.resolve`
unfoldable pub resolve : List Entry → Identity → ResolvedKey
resolve resolved i = get_or (lookup i resolved) (record { key = i.key; polarity = pos 1 })
