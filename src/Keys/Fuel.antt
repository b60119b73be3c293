-- ===== src/Keys/Fuel.antt =====
-- The loop of `_follow` ends: each of its steps leaves by an entry that it has not left by before.
use soulmate.Prelude.{
  ℕ, zero, suc, ◌≤◌, ◌<◌, String, ◌≡◌, ◌≢◌, refl, true, false, some, List, [], ◌∷◌, eq_iff, text_in,
  inl, inr, Bool-cases, Option-cases, length, if◌then◌else◌, arith, none-ne-some,
}
use soulmate.Exec.{err, ok-ne-err}
use soulmate.Float.{ℤ, pos}
use soulmate.Keys.Records.{times_int}
use soulmate.Keys.Aliases.{
  Identity, ResolvedKey, Entry, eq_identity, lookup, out_of_fuel, at_key, follow_loop, follow,
}

-- The number of the entries whose keys are not among the visited ones.
abbrev unvisited : List String → List Entry → ℕ
unvisited visited [] = 0
unvisited visited (e ∷ entries) =
    let rest = unvisited visited entries in if text_in e.0.key visited then rest else suc rest

unvisited_le_length :
    (visited : List String) (entries : List Entry) → unvisited visited entries ≤ length entries
unvisited_le_length visited [] = ground arith
unvisited_le_length visited (e ∷ entries) = ground (arith, unvisited_le_length visited entries)

unvisited_le :
    (c : String) (visited : List String) (entries : List Entry)
    → unvisited (c ∷ visited) entries ≤ unvisited visited entries
unvisited_le c visited [] = ground arith
unvisited_le c visited (e ∷ entries) = ground (arith, unvisited_le c visited entries)

same_key :
    (i : Identity) (c : String) (e : Identity) → eq_identity e (at_key i c) ≡ true → e.key ≡ c
same_key i c e h = (eq_iff e.key c).0 (ground arith)

-- An entry that the loop leaves by is visited from then on.
unvisited_drops :
    (i : Identity) (c : String) (visited : List String) (entries : List Entry) (r : ResolvedKey)
    → lookup (at_key i c) entries ≡ some r
    → text_in c visited ≡ false
    → unvisited (c ∷ visited) entries < unvisited visited entries
unfolding lookup
unvisited_drops i c visited [] r h new = absurd (none-ne-some h)
unvisited_drops i c visited (e ∷ entries) r h new =
    elim (Bool-cases (eq_identity e.0 (at_key i c))) [
      | inl here ↦
          let same = same_key i c e.0 here in
          rw (same, new, (eq_iff c c).1 refl) (ground (arith, unvisited_le c visited entries))
      | inr there ↦
          let less = unvisited_drops i c visited entries r (rw there at h) new in ground arith
    ]

enough :
    (n : ℕ) (direct : List Entry) (i : Identity) (current : String) (polarity : ℤ)
    (visited : List String)
    → text_in current visited ≡ false
    → unvisited visited direct < n
    → follow_loop n direct i current polarity (current ∷ visited) ≢ err out_of_fuel
unfolding follow_loop
enough zero direct i current polarity visited new less h = absurd (omega arith)
enough (suc n) direct i current polarity visited new less h =
    elim (Option-cases (lookup (at_key i current) direct)) [
      | inl end ↦ ok-ne-err (rw end at h)
      | inr (s, more) ↦ elim (Bool-cases (text_in s.key (current ∷ visited))) [
        | inl twice ↦ cc (rw (more, twice) at h)
        | inr fresh ↦
            let drops = unvisited_drops i current visited direct s more new in
            enough n direct i s.key (times_int polarity s.polarity) (current ∷ visited) fresh
              (omega arith) (rw (more, fresh) at h)
      ]
    ]

-- Following a key ends, by a result or by the discovery of a cycle: the loop takes at most one step
-- for each entry.
pub follow_ends : (direct : List Entry) (i : Identity) → follow direct i ≢ err out_of_fuel
unfolding follow
follow_ends direct i =
    enough (suc (length direct)) direct i i.key (pos 1) [] refl
      (let bound = unvisited_le_length [] direct in omega arith)
