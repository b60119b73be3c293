-- ===== src/Keys/Collected.antt =====
-- What `KeyAliasMap.__init__` collects are the active aliases, and nothing else.
use soulmate.Prelude.{
  ◌≡◌, ◌≢◌, refl, sym, ap, subst, ◌∙◌, ◌⊎◌, true, none, some, List, [], ◌∷◌, ◌++◌, inl, inr,
  Bool-cases, Option-cases, Member, at_head, in_tail, some_inj, none-ne-some, false≢true,
}
use soulmate.Exec.{ok, reached, ok_inj, ok-ne-err}
use soulmate.Keys.Records.{
  TargetKeyAlias, TargetKeyAliasStatus, active, suggested, rejected, is_active,
}
use soulmate.Keys.Aliases.{
  Identity, ResolvedKey, Entry, eq_identity, eq_resolved, lookup, identity_of, resolved_of,
  put_direct, collect,
}
use soulmate.Keys.Identities.{eq_identity-path, eq_identity_refl}

-- A key is an active alias of the list, which stands for `r`.
pub record Active (rows : List TargetKeyAlias) (i : Identity) (r : ResolvedKey) : Type 0 where
  pub alias : TargetKeyAlias
  pub listed : Member alias rows
  pub is_on : alias.status ≡ active
  pub named : identity_of alias ≡ i
  pub stands : resolved_of alias ≡ r

-- A key is no active alias of the list.
unfoldable pub NoAlias : List TargetKeyAlias → Identity → Type 0
NoAlias rows i = (a : TargetKeyAlias) → Member a rows → a.status ≡ active → identity_of a ≢ i

active_path : (st : TargetKeyAliasStatus) → is_active st ≡ true → st ≡ active
active_path active h = refl
active_path suggested h = absurd (false≢true h)
active_path rejected h = absurd (false≢true h)

module _ (e : Entry) (i : Identity) where
  last_found :
      (xs : List Entry) (r : ResolvedKey)
      → lookup i (xs ++ e ∷ []) ≡ some r
      → (lookup i xs ≡ some r) ⊎ ((e.0 ≡ i) × (e.1 ≡ r))
  unfolding lookup
  last_found [] r h = elim (Bool-cases (eq_identity e.0 i)) [
    | inl same ↦ inr (eq_identity-path e.0 i same, some_inj (rw same at h))
    | inr other ↦ absurd (none-ne-some (rw other at h))
  ]
  last_found (x ∷ xs) r h = elim (Bool-cases (eq_identity x.0 i)) [
    | inl same ↦ inl (rw same (rw same at h))
    | inr other ↦ rw other (last_found xs r (rw other at h))
  ]

  last_missing :
      (xs : List Entry) → lookup i (xs ++ e ∷ []) ≡ none → (lookup i xs ≡ none) × (e.0 ≢ i)
  unfolding lookup
  last_missing [] h = (
    refl,
    λ same.
        let test = subst (λ x. eq_identity e.0 x ≡ true) same (eq_identity_refl e.0) in
        none-ne-some (sym (rw test at h)),
  )
  last_missing (x ∷ xs) h = elim (Bool-cases (eq_identity x.0 i)) [
    | inl same ↦ absurd (none-ne-some (sym (rw same at h)))
    | inr other ↦ rw other (last_missing xs (rw other at h))
  ]

module _ (i : Identity) where
  -- What one active alias does to the entries
  put_found :
      (a : TargetKeyAlias) (acc acc' : List Entry) (r : ResolvedKey)
      → put_direct a acc (lookup (identity_of a) acc) ≡ ok acc'
      → lookup i acc' ≡ some r
      → (lookup i acc ≡ some r) ⊎ ((identity_of a ≡ i) × (resolved_of a ≡ r))
  put_found a acc acc' r h found = elim (Option-cases (lookup (identity_of a) acc)) [
    | inl new ↦
        last_found (identity_of a, resolved_of a) i acc r
          (ap (lookup i) (ok_inj (rw new at h)) ∙ found)
    | inr (q, old) ↦ elim (Bool-cases (eq_resolved q (resolved_of a))) [
      | inl agrees ↦ inl (ap (lookup i) (ok_inj (rw (old, agrees) at h)) ∙ found)
      | inr differs ↦ absurd (ok-ne-err (sym (rw (old, differs) at h)))
    ]
  ]

  put_missing :
      (a : TargetKeyAlias) (acc acc' : List Entry)
      → put_direct a acc (lookup (identity_of a) acc) ≡ ok acc'
      → lookup i acc' ≡ none
      → (lookup i acc ≡ none) × (identity_of a ≢ i)
  put_missing a acc acc' h gone = elim (Option-cases (lookup (identity_of a) acc)) [
    | inl new ↦
        last_missing (identity_of a, resolved_of a) i acc
          (ap (lookup i) (ok_inj (rw new at h)) ∙ gone)
    | inr (q, old) ↦ elim (Bool-cases (eq_resolved q (resolved_of a))) [
      | inl agrees ↦
          let before = ap (lookup i) (ok_inj (rw (old, agrees) at h)) ∙ gone in
          (before, λ same. none-ne-some (sym before ∙ ap (λ x. lookup x acc) (sym same) ∙ old))
      | inr differs ↦ absurd (ok-ne-err (sym (rw (old, differs) at h)))
    ]
  ]

  Active-later :
      {a : TargetKeyAlias} {rows : List TargetKeyAlias} {r : ResolvedKey}
      → Active rows i r
      → Active (a ∷ rows) i r
  Active-later x = record {
    alias = x.alias;
    listed = in_tail x.listed;
    is_on = x.is_on;
    named = x.named;
    stands = x.stands;
  }

  pub collect-Active :
      (rows : List TargetKeyAlias) (acc direct : List Entry) (r : ResolvedKey)
      → collect rows acc ≡ ok direct
      → lookup i direct ≡ some r
      → (lookup i acc ≡ some r) ⊎ Active rows i r
  unfolding collect
  collect-Active [] acc direct r h found = inl (ap (lookup i) (ok_inj h) ∙ found)
  collect-Active (a ∷ rows) acc direct r h found = elim (Bool-cases (is_active a.status)) [
    | inr off ↦ elim (collect-Active rows acc direct r (rw off at h) found) [
      | inl before ↦ inl before
      | inr x ↦ inr (Active-later x)
    ]
    | inl on ↦
        let (acc', put, rest) =
          reached (put_direct a acc (lookup (identity_of a) acc)) (λ d. collect rows d)
            (rw on at h) in
        elim (collect-Active rows acc' direct r rest found) [
          | inr x ↦ inr (Active-later x)
          | inl before ↦ elim (put_found a acc acc' r put before) [
            | inl old ↦ inl old
            | inr (named, stands) ↦ inr (record {
              alias = a;
              listed = at_head refl;
              is_on = active_path a.status on;
              named = named;
              stands = stands;
            })
          ]
        ]
  ]

  pub collect-NoAlias :
      (rows : List TargetKeyAlias) (acc direct : List Entry)
      → collect rows acc ≡ ok direct
      → lookup i direct ≡ none
      → (lookup i acc ≡ none) × NoAlias rows i
  unfolding collect NoAlias
  collect-NoAlias [] acc direct h gone = (ap (lookup i) (ok_inj h) ∙ gone, λ a m. elim m [ ])
  collect-NoAlias (a ∷ rows) acc direct h gone = elim (Bool-cases (is_active a.status)) [
    | inr off ↦
        let (before, unlisted) = collect-NoAlias rows acc direct (rw off at h) gone in
        (
          before,
          λ x m st. elim m [
            | at_head e ↦ absurd (
                false≢true (
                  sym off
                  ∙ ap (λ (y : TargetKeyAlias). is_active y.status) (sym e)
                  ∙ ap is_active st))
            | in_tail later ↦ unlisted x later st
          ],
        )
    | inl on ↦
        let (acc', put, rest) =
          reached (put_direct a acc (lookup (identity_of a) acc)) (λ d. collect rows d)
            (rw on at h) in
        let (after, unlisted) = collect-NoAlias rows acc' direct rest gone in
        let (before, other) = put_missing a acc acc' put after in
        (
          before,
          λ x m st. elim m [
            | at_head e ↦ λ same. other (ap identity_of (sym e) ∙ same)
            | in_tail later ↦ unlisted x later st
          ],
        )
  ]
