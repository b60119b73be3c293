-- ===== src/Keys/Canonical.antt =====
-- What a `KeyAliasMap` resolves a key to.
use soulmate.Prelude.{
  String, ◌≡◌, refl, sym, ap, subst, ◌∙◌, none, some, List, [], ◌∷◌, inl, inr, Bool-cases,
  Option-cases, some_inj, none-ne-some,
}
use soulmate.Exec.{ok, Result-cases, ok_inj, ok-ne-err}
use soulmate.Float.{ℤ, pos}
use soulmate.Keys.Records.{TargetKeyAlias, times_int}
use soulmate.Keys.Aliases.{
  at_key, Identity, ResolvedKey, Entry, eq_identity, lookup, follow, collect, follow_all,
  key_alias_map, resolve,
}
use soulmate.Keys.Identities.{eq_identity-path}
use soulmate.Keys.Collected.{Active, NoAlias, collect-Active, collect-NoAlias}
use soulmate.Keys.Follow.{Leads, stop, hop, follow-Leads}

-- A chain of active aliases from a key, with a sign so far, to a key that is no active alias.
pub data Chain (aliases : List TargetKeyAlias) (i : Identity)
    : String → ℤ → String → ℤ → Type 0 where
  ends : {k : String} {p : ℤ} → NoAlias aliases (at_key i k) → Chain aliases i k p k p
  leads :
      {k l : String} {p q : ℤ} {r : ResolvedKey}
      → Active aliases (at_key i k) r
      → Chain aliases i r.key (times_int p r.polarity) l q
      → Chain aliases i k p l q

module _ (direct : List Entry) where
  -- The map has the keys of the entries, and at each the result of following it.
  pub record Followed (entries m : List Entry) : Type 0 where
    pub at_some : (i : Identity) (r : ResolvedKey) → lookup i m ≡ some r → follow direct i ≡ ok r
    pub absent : (i : Identity) → lookup i entries ≡ none → lookup i m ≡ none
    pub only : (i : Identity) → lookup i m ≡ none → lookup i entries ≡ none

  module _ (e : Entry) (entries m : List Entry) (r : ResolvedKey) (rest : Followed entries m)
      (found : follow direct e.0 ≡ ok r) where
    cons_some :
        (i : Identity) (q : ResolvedKey) → lookup i ((e.0, r) ∷ m) ≡ some q → follow direct i ≡ ok q
    unfolding lookup
    cons_some i q h = elim (Bool-cases (eq_identity e.0 i)) [
      | inl same ↦
          ap (follow direct) (sym (eq_identity-path e.0 i same))
          ∙ found
          ∙ ap ok (some_inj (rw same at h))
      | inr other ↦ rest.at_some i q (rw other at h)
    ]

    cons_absent : (i : Identity) → lookup i (e ∷ entries) ≡ none → lookup i ((e.0, r) ∷ m) ≡ none
    unfolding lookup
    cons_absent i h = elim (Bool-cases (eq_identity e.0 i)) [
      | inl same ↦ absurd (none-ne-some (sym (rw same at h)))
      | inr other ↦ rw other (rest.absent i (rw other at h))
    ]

    cons_only : (i : Identity) → lookup i ((e.0, r) ∷ m) ≡ none → lookup i (e ∷ entries) ≡ none
    unfolding lookup
    cons_only i h = elim (Bool-cases (eq_identity e.0 i)) [
      | inl same ↦ absurd (none-ne-some (sym (rw same at h)))
      | inr other ↦ rw other (rest.only i (rw other at h))
    ]

  follow_all-Followed :
      (entries m : List Entry) → follow_all direct entries ≡ ok m → Followed entries m
  unfolding follow_all lookup
  follow_all-Followed [] m h = subst (Followed []) (ok_inj h) (record {
    at_some = λ i r e. absurd (none-ne-some e);
    absent = λ i e. refl;
    only = λ i e. refl;
  })
  follow_all-Followed (e ∷ entries) m h = elim (Result-cases (follow direct e.0)) [
    | inl (x, bad) ↦ absurd (ok-ne-err (sym (rw bad at h)))
    | inr (r, found) ↦ elim (Result-cases (follow_all direct entries)) [
      | inl (x, bad) ↦ absurd (ok-ne-err (sym (rw (found, bad) at h)))
      | inr (rest, done) ↦
          let tail_followed = follow_all-Followed entries rest done in
          subst (Followed (e ∷ entries)) (ok_inj (rw (found, done) at h)) (record {
            at_some = cons_some e entries rest r tail_followed found;
            absent = cons_absent e entries rest r tail_followed found;
            only = cons_only e entries rest r tail_followed found;
          })
    ]
  ]

module _ (aliases : List TargetKeyAlias) (m : List Entry)
    (built : key_alias_map aliases ≡ ok m) where
  map_parts : (direct : List Entry) × (collect aliases [] ≡ ok direct) × Followed direct direct m
  unfolding key_alias_map
  map_parts = elim (Result-cases (collect aliases [])) [
    | inl (x, bad) ↦ absurd (ok-ne-err (sym (rw bad at built)))
    | inr (direct, kept) ↦ (direct, kept, follow_all-Followed direct direct m (rw kept at built))
  ]

  -- A built map resolves a key to the end of the chain of its entries.
  pub resolve-direct :
      (i : Identity)
      → (direct : List Entry) × (collect aliases [] ≡ ok direct)
        × Leads direct i i.key (pos 1) (resolve m i).key (resolve m i).polarity
  unfolding resolve
  resolve-direct i =
      let (direct, kept, followed) = map_parts in
      elim (Option-cases (lookup i m)) [
        | inl absent ↦ rw absent (direct, kept, stop (followed.only i absent))
        | inr (r, found) ↦
            rw found (direct, kept, (follow-Leads direct i r (followed.at_some i r found)).0)
      ]

  Leads-Chain :
      (direct : List Entry) (i : Identity)
      → collect aliases [] ≡ ok direct
      → {k l : String} {p q : ℤ} → Leads direct i k p l q
      → Chain aliases i k p l q
  unfolding lookup
  Leads-Chain direct i kept (stop {k} h) =
      let (_, unlisted) = collect-NoAlias (at_key i k) aliases [] direct kept h in ends unlisted
  Leads-Chain direct i kept (hop {k} {r = r} h rest) =
      elim (collect-Active (at_key i k) aliases [] direct r kept h) [
        | inl nothing ↦ absurd (none-ne-some nothing)
        | inr x ↦ leads x (Leads-Chain direct i kept rest)
      ]

  -- In the map that a list of aliases builds, a key resolves to the end of the chain of active
  -- aliases of the list that starts at it, a key that is no active alias, with the product of their
  -- signs.
  pub resolve-Chain :
      (i : Identity) → Chain aliases i i.key (pos 1) (resolve m i).key (resolve m i).polarity
  resolve-Chain i = let (direct, kept, chain) = resolve-direct i in Leads-Chain direct i kept chain
