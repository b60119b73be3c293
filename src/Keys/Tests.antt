-- ===== src/Keys/Tests.antt =====
-- Alias maps at concrete aliases, and the theorems at them.
use soulmate.Prelude.{String, ◌≡◌, ◌≢◌, refl, false, none, List, [], ◌∷◌}
use soulmate.Exec.{ok, err}
use soulmate.Float.{ℤ, pos, negsuc}
use soulmate.Keys.Records.{
  TargetKeyAlias, alias_ok, preference, normalized, semantic, active, rejected,
}
use soulmate.Keys.Aliases.{
  Identity, Entry, alias_cycle, conflicting_aliases, out_of_fuel, lookup, follow, follow_loop,
  collect, follow_all, key_alias_map, resolve,
}
use soulmate.Keys.Fuel.{follow_ends}
use soulmate.Keys.Canonical.{Chain, resolve-Chain}

abbrev alias : String → String → ℤ → TargetKeyAlias
alias key canonical polarity = record {
  profile_id = "owner";
  target_type = preference;
  alias_key = key;
  canonical_key = canonical;
  polarity = polarity;
  method = normalized;
  status = active;
  algorithm_version = "v1";
  created_at = 1;
  updated_at = 1;
  similarity = none;
}

abbrev aliases : List TargetKeyAlias
aliases =
    alias "light" "theme" (negsuc 0)
    ∷ alias "bright" "light" (pos 1)
    ∷ record (alias "theme" "bright" (pos 1)) { status = rejected }
    ∷ []

abbrev key_of : String → Identity
key_of key = record { profile_id = "owner"; target_type = preference; key = key }

abbrev direct : List Entry
direct =
    (key_of "light", record { key = "theme"; polarity = negsuc 0 })
    ∷ (key_of "bright", record { key = "light"; polarity = pos 1 })
    ∷ []

abbrev resolved : List Entry
resolved =
    (key_of "light", record { key = "theme"; polarity = negsuc 0 })
    ∷ (key_of "bright", record { key = "theme"; polarity = negsuc 0 })
    ∷ []

builds : key_alias_map aliases ≡ ok resolved
unfolding key_alias_map collect lookup follow_all follow follow_loop
builds = refl

finds_cycle :
    key_alias_map (alias "a" "b" (pos 1) ∷ alias "b" "c" (pos 1) ∷ alias "c" "a" (pos 1) ∷ [])
    ≡ err alias_cycle
unfolding key_alias_map collect lookup follow_all follow follow_loop
finds_cycle = refl

finds_conflict :
    key_alias_map (alias "a" "b" (pos 1) ∷ alias "a" "c" (pos 1) ∷ []) ≡ err conflicting_aliases
unfolding key_alias_map collect lookup
finds_conflict = refl

needs_similarity : alias_ok (record (alias "a" "b" (pos 1)) { method = semantic }) ≡ false
unfolding alias_ok
needs_similarity = refl

follows : follow direct (key_of "bright") ≡ ok (record { key = "theme"; polarity = negsuc 0 })
unfolding follow follow_loop lookup
follows = refl

follow_ends_example :
    follow ((key_of "a", record { key = "a"; polarity = pos 1 }) ∷ []) (key_of "a")
    ≢ err out_of_fuel
follow_ends_example =
    follow_ends ((key_of "a", record { key = "a"; polarity = pos 1 }) ∷ []) (key_of "a")

resolve-Chain_example :
    Chain aliases
      (key_of "bright")
      "bright"
      (pos 1)
      (resolve resolved (key_of "bright")).key
      (resolve resolved (key_of "bright")).polarity
resolve-Chain_example = resolve-Chain aliases resolved builds (key_of "bright")
