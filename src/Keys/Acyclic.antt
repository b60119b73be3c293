-- ===== src/Keys/Acyclic.antt =====
-- The repository of aliases keeps its active aliases without cycles and conflicts.
use soulmate.Prelude.{
  String, ◌≡◌, refl, sym, ap, subst, ◌∙◌, none, List, [], ◌∷◌, find, map_option, inl, inr, ℕ, ◌⊎◌,
}
use soulmate.Exec.{ok, ok_inj}
use soulmate.Keys.Records.{TargetKeyAlias}
use soulmate.Keys.Aliases.{Identity, Entry, resolved_of, at_key, follow_all, key_alias_map}
use soulmate.Keys.Depth.{Depth, Leads-Depth, follow-Depth, Restricts, Restricts-Depth}
use soulmate.Keys.Entries.{Unique, entries, active_at, lookup-entries, collect-entries}
use soulmate.Keys.Canonical.{resolve-direct}

-- Every chain of aliases ends.
unfoldable pub Ends : List Entry → Type 0
Ends direct = (i : Identity) → (n : ℕ) × Depth direct i i.key n

abbrev pub Builds : List TargetKeyAlias → Type 0
Builds rows = (m : List Entry) × (key_alias_map rows ≡ ok m)

pub Builds-Ends : (rows : List TargetKeyAlias) → Unique rows → Builds rows → Ends (entries rows)
unfolding Ends
Builds-Ends rows u (m, built) i =
    let (direct, kept, chain) = resolve-direct rows m built i in
    let same = ok_inj (sym kept ∙ collect-entries rows u) in
    subst (λ d. (n : ℕ) × Depth d i i.key n) same (Leads-Depth chain)

follows_all :
    (direct : List Entry)
    → Ends direct
    → (es : List Entry) → (m : List Entry) × (follow_all direct es ≡ ok m)
unfolding follow_all Ends
follows_all direct ends [] = ([], refl)
follows_all direct ends (e ∷ es) =
    let (n, depth) = ends e.0 in
    let (r, found) = follow-Depth depth in
    let (m, rest) = follows_all direct ends es in ((e.0, r) ∷ m, rw (found, rest) refl)

Ends-Builds : (rows : List TargetKeyAlias) → Unique rows → Ends (entries rows) → Builds rows
unfolding key_alias_map
Ends-Builds rows u ends =
    let (m, done) = follows_all (entries rows) ends (entries rows) in
    (m, rw (collect-entries rows u) done)

-- The aliases have one row for each identity, and every chain of active ones ends.
pub record IsAcyclic (rows : List TargetKeyAlias) : Type 0 where
  pub unique : Unique rows
  pub ends : Ends (entries rows)

pub IsAcyclic-Builds : (rows : List TargetKeyAlias) → IsAcyclic rows → Builds rows
IsAcyclic-Builds rows h = Ends-Builds rows h.unique h.ends

-- A table in which each active alias is absent or as before.
module _ (before after : List TargetKeyAlias) where
  unfoldable pub Fewer : Identity → Type 0
  Fewer i =
      (k : String)
      → (find (active_at (at_key i k)) after ≡ none)
        ⊎ (map_option resolved_of (find (active_at (at_key i k)) after)
            ≡ map_option resolved_of (find (active_at (at_key i k)) before))

  Fewer-Restricts : (i : Identity) → Fewer i → Restricts i (entries after) (entries before)
  unfolding Fewer Restricts
  Fewer-Restricts i fewer k = elim (fewer k) [
    | inl gone ↦ inl (lookup-entries (at_key i k) after ∙ ap (map_option resolved_of) gone)
    | inr same ↦
        inr (lookup-entries (at_key i k) after ∙ same ∙ sym (lookup-entries (at_key i k) before))
  ]

  pub Fewer-Depth :
      (i : Identity) (n : ℕ)
      → Fewer i
      → Depth (entries before) i i.key n
      → (m : ℕ) × Depth (entries after) i i.key m
  Fewer-Depth i n fewer d = Restricts-Depth (Fewer-Restricts i fewer) d
