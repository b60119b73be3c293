-- ===== src/Keys/Rows.antt =====
-- What the writes of the alias repository do to the active alias of each identity.
use soulmate.Prelude.{
  String, ◌≡◌, refl, sym, ap, subst, ◌∙◌, Bool, true, false, none, some, List, [], ◌∷◌, ◌++◌, any,
  find, filter, map_option, inl, inr, Bool-cases, arith, update_where, find-append_none,
  find-none_of_any, ◌==◌, false≢true, eq_iff,
}
use soulmate.Keys.Records.{TargetKeyAlias, is_active}
use soulmate.Keys.Aliases.{Identity, eq_identity, identity_of, resolved_of, at_key}
use soulmate.Keys.Store.{at_identity, rewritten, put_alias, beside}
use soulmate.Keys.Identities.{identity-cases, eq_identity_refl, eq_identity-false}
use soulmate.Keys.Entries.{active_at}

skip_append {ℓ} :
    {A : Type ℓ} (p : A → Bool) (xs : List A) (a : A)
    → p a ≡ false
    → find p (xs ++ a ∷ []) ≡ find p xs
unfolding find
skip_append p [] a h = rw h refl
skip_append p (x ∷ xs) a h = ground (arith, skip_append p xs a)

-- A filter hides no row that the search is for.
find-filter {ℓ} :
    {A : Type ℓ} (p q : A → Bool)
    → ((x : A) → p x ≡ true → q x ≡ true)
    → (xs : List A) → find p (filter q xs) ≡ find p xs
unfolding find filter
find-filter p q sub [] = refl
find-filter p q sub (x ∷ xs) = ground (arith, sub x, find-filter p q sub xs)

find-filter-none {ℓ} :
    {A : Type ℓ} (p q : A → Bool)
    → ((x : A) → q x ≡ true → p x ≡ false)
    → (xs : List A) → find p (filter q xs) ≡ none
unfolding find filter
find-filter-none p q sub [] = refl
find-filter-none p q sub (x ∷ xs) = ground (arith, sub x, find-filter-none p q sub xs)

active_at-false :
    (a : TargetKeyAlias) (i : Identity)
    → eq_identity (identity_of a) i ≡ false
    → active_at i a ≡ false
active_at-false a i other = rw other (ground arith)

module _ (alias : TargetKeyAlias) (i : Identity) where
  abbrev update : List TargetKeyAlias → List TargetKeyAlias
  update = update_where (at_identity (identity_of alias)) (rewritten alias)

  update_other :
      eq_identity (identity_of alias) i ≡ false
      → (rows : List TargetKeyAlias) → find (active_at i) (update rows) ≡ find (active_at i) rows
  unfolding find update_where
  update_other other [] = refl
  update_other other (a ∷ rows) = elim (Bool-cases (at_identity (identity_of alias) a)) [
    | inl here ↦
        let gone =
          active_at-false a i
            (eq_identity-false (identity_of a) (identity_of alias) i here other) in
        rw (here, active_at-false alias i other, gone) (update_other other rows)
    | inr there ↦ rw (there, update_other other rows) refl
  ]

  -- The write of an alias changes no other identity.
  pub put_other :
      eq_identity (identity_of alias) i ≡ false
      → (rows : List TargetKeyAlias)
      → find (active_at i) (put_alias alias rows) ≡ find (active_at i) rows
  put_other other rows = elim (Bool-cases (any (at_identity (identity_of alias)) rows)) [
    | inl stored ↦ rw stored (update_other other rows)
    | inr new ↦ rw new (skip_append (active_at i) rows alias (active_at-false alias i other))
  ]

module _ (alias : TargetKeyAlias) where
  abbrev own : Identity
  own = identity_of alias

  missing :
      (rows : List TargetKeyAlias)
      → any (at_identity own) rows ≡ false
      → find (active_at own) rows ≡ none
  missing rows new =
      find-none_of_any (active_at own) (at_identity own) (λ a h. active_at-false a own h) rows new

  update_same :
      is_active alias.status ≡ true
      → (rows : List TargetKeyAlias) → any (at_identity own) rows ≡ true
      → map_option resolved_of (find (active_at own) (update alias own rows))
        ≡ some (resolved_of alias)
  unfolding find update_where
  update_same on [] h = absurd (cc h)
  update_same on (a ∷ rows) h = elim (Bool-cases (at_identity own a)) [
    | inl here ↦ rw (here, on, eq_identity_refl own) refl
    | inr there ↦ rw (there, active_at-false a own there) (update_same on rows (rw there at h))
  ]

  update_inactive :
      is_active alias.status ≡ false
      → (rows : List TargetKeyAlias) → find (active_at own) (update alias own rows) ≡ none
  unfolding find update_where
  update_inactive off [] = refl
  update_inactive off (a ∷ rows) = elim (Bool-cases (at_identity own a)) [
    | inl here ↦ rw (here, off) (update_inactive off rows)
    | inr there ↦ rw (there, active_at-false a own there) (update_inactive off rows)
  ]

  -- After the write of an active alias, its identity has this alias.
  put_same :
      is_active alias.status ≡ true
      → (rows : List TargetKeyAlias)
      → map_option resolved_of (find (active_at own) (put_alias alias rows))
        ≡ some (resolved_of alias)
  unfolding find
  put_same on rows = elim (Bool-cases (any (at_identity own) rows)) [
    | inl stored ↦ rw stored (update_same on rows stored)
    | inr new ↦
        rw
          (
            new,
            find-append_none (active_at own) rows (alias ∷ []) (missing rows new),
            on,
            eq_identity_refl own,
          )
          refl
  ]

  pub put_inactive :
      is_active alias.status ≡ false
      → (rows : List TargetKeyAlias) → find (active_at own) (put_alias alias rows) ≡ none
  unfolding find
  put_inactive off rows = elim (Bool-cases (any (at_identity own) rows)) [
    | inl stored ↦ rw stored (update_inactive off rows)
    | inr new ↦
        rw (new, find-append_none (active_at own) rows (alias ∷ []) (missing rows new), off) refl
  ]

  -- The rows that the test for a cycle looks at, at the keys of the same profile and type.
  beside_at :
      (k : String) (a : TargetKeyAlias)
      → eq_identity own (at_key own k) ≡ false
      → active_at (at_key own k) a ≡ true
      → beside alias a ≡ true
  beside_at k a other h = elim (Bool-cases (a.alias_key == alias.alias_key)) [
    | inr differs ↦ rw differs (ground arith)
    | inl same ↦
        let at_k : a.alias_key ≡ k = (eq_iff a.alias_key k).0 (ground arith) in
        let own_k = sym ((eq_iff a.alias_key alias.alias_key).0 same) ∙ at_k in
        absurd (
          false≢true (
            sym other
            ∙ subst (λ x. eq_identity own (at_key own x) ≡ true) own_k (eq_identity_refl own)))
  ]

  not_beside : (a : TargetKeyAlias) → beside alias a ≡ true → active_at own a ≡ false
  not_beside a h = ground arith

  checked_own :
      is_active alias.status ≡ true
      → (rows : List TargetKeyAlias)
      → map_option resolved_of (find (active_at own) (filter (beside alias) rows ++ alias ∷ []))
        ≡ some (resolved_of alias)
  unfolding find
  checked_own on rows =
      let gone = find-filter-none (active_at own) (beside alias) not_beside rows in
      rw
        (
          find-append_none (active_at own) (filter (beside alias) rows) (alias ∷ []) gone,
          on,
          eq_identity_refl own,
        )
        refl

  -- The aliases that the test for a cycle looks at are the ones that the write leaves.
  pub checked_as_written :
      is_active alias.status ≡ true
      → (rows : List TargetKeyAlias) (k : String)
      → map_option resolved_of
          (find (active_at (at_key own k)) (filter (beside alias) rows ++ alias ∷ []))
        ≡ map_option resolved_of (find (active_at (at_key own k)) (put_alias alias rows))
  checked_as_written on rows k = elim (identity-cases own (at_key own k)) [
    | inr other ↦ ap (map_option resolved_of) (
        skip_append (active_at (at_key own k)) (filter (beside alias) rows) alias
          (active_at-false alias (at_key own k) other)
        ∙ find-filter (active_at (at_key own k)) (beside alias) (λ a. beside_at k a other) rows
        ∙ sym (put_other alias (at_key own k) other rows))
    | inl same ↦
        subst
          (λ i.
            map_option resolved_of (find (active_at i) (filter (beside alias) rows ++ alias ∷ []))
            ≡ map_option resolved_of (find (active_at i) (put_alias alias rows)))
          same (checked_own on rows ∙ sym (put_same on rows))
  ]
