-- ===== src/Keys/Unique.antt =====
-- The alias repository keeps one row for each identity.
use soulmate.Prelude.{
  ◌≡◌, refl, subst, Bool, false, List, [], ◌∷◌, ◌++◌, any, filter, inl, inr, Bool-cases, arith,
  update_where, delete_where,
}
use soulmate.Keys.Records.{TargetKeyAlias}
use soulmate.Keys.Aliases.{Identity, eq_identity, identity_of}
use soulmate.Keys.Store.{at_identity, rewritten, put_alias}
use soulmate.Keys.Identities.{eq_identity-path, eq_identity_comm_false}
use soulmate.Keys.Entries.{Unique}

filter_misses :
    (p q : TargetKeyAlias → Bool) (rows : List TargetKeyAlias)
    → any p rows ≡ false
    → any p (filter q rows) ≡ false
unfolding filter
filter_misses p q [] h = refl
filter_misses p q (a ∷ rows) h = ground (arith, filter_misses p q rows)

pub Unique-filter :
    (q : TargetKeyAlias → Bool) (rows : List TargetKeyAlias) → Unique rows → Unique (filter q rows)
unfolding Unique filter
Unique-filter q [] u = tt
Unique-filter q (a ∷ rows) (alone, u) = elim (Bool-cases (q a)) [
  | inl on ↦
      rw on (filter_misses (at_identity (identity_of a)) q rows alone, Unique-filter q rows u)
  | inr off ↦ rw off (Unique-filter q rows u)
]

append_misses :
    (p : TargetKeyAlias → Bool) (rows : List TargetKeyAlias) (b : TargetKeyAlias)
    → any p rows ≡ false
    → p b ≡ false
    → any p (rows ++ b ∷ []) ≡ false
append_misses p [] b h k = rw k refl
append_misses p (a ∷ rows) b h k = ground (arith, append_misses p rows b)

pub Unique-append :
    (rows : List TargetKeyAlias) (b : TargetKeyAlias)
    → Unique rows
    → any (at_identity (identity_of b)) rows ≡ false
    → Unique (rows ++ b ∷ [])
unfolding Unique
Unique-append [] b u h = (refl, tt)
Unique-append (a ∷ rows) b (alone, u) h = elim (Bool-cases (at_identity (identity_of b) a)) [
  | inl same ↦ absurd (cc (rw same at h))
  | inr other ↦ (
    append_misses (at_identity (identity_of a)) rows b alone
        (eq_identity_comm_false (identity_of a) (identity_of b) other),
    Unique-append rows b u (rw other at h),
  )
]

module _ (alias : TargetKeyAlias) where
  abbrev own : Identity
  own = identity_of alias

  update_misses :
      (i : Identity) (rows : List TargetKeyAlias)
      → any (at_identity i) rows ≡ false
      → any (at_identity i) (update_where (at_identity own) (rewritten alias) rows) ≡ false
  unfolding update_where
  update_misses i [] h = refl
  update_misses i (a ∷ rows) h = elim (Bool-cases (at_identity own a)) [
    | inr other ↦ rw other (ground (arith, update_misses i rows))
    | inl same ↦
        let path = eq_identity-path (identity_of a) own same in
        let here = subst (λ x. eq_identity x i ≡ false) path (ground arith) in
        rw (same, here) (update_misses i rows (ground arith))
  ]

  Unique-update :
      (rows : List TargetKeyAlias)
      → Unique rows
      → Unique (update_where (at_identity own) (rewritten alias) rows)
  unfolding Unique update_where
  Unique-update [] u = tt
  Unique-update (a ∷ rows) (alone, u) = elim (Bool-cases (at_identity own a)) [
    | inr other ↦ rw other (update_misses (identity_of a) rows alone, Unique-update rows u)
    | inl same ↦
        let path = eq_identity-path (identity_of a) own same in
        rw same (
          subst
              (λ i.
                any (at_identity i) (update_where (at_identity own) (rewritten alias) rows) ≡ false)
              path (update_misses (identity_of a) rows alone),
          Unique-update rows u,
        )
  ]

  pub Unique-put : (rows : List TargetKeyAlias) → Unique rows → Unique (put_alias alias rows)
  Unique-put rows u = elim (Bool-cases (any (at_identity own) rows)) [
    | inl stored ↦ rw stored (Unique-update rows u)
    | inr new ↦ rw new (Unique-append rows alias u new)
  ]

pub delete_misses :
    (p q : TargetKeyAlias → Bool) (rows : List TargetKeyAlias)
    → any p rows ≡ false
    → any p (delete_where q rows) ≡ false
unfolding delete_where
delete_misses p q [] h = refl
delete_misses p q (a ∷ rows) h = ground (arith, delete_misses p q rows)

pub Unique-delete :
    (q : TargetKeyAlias → Bool) (rows : List TargetKeyAlias)
    → Unique rows
    → Unique (delete_where q rows)
unfolding Unique delete_where
Unique-delete q [] u = tt
Unique-delete q (a ∷ rows) (alone, u) = elim (Bool-cases (q a)) [
  | inl on ↦ rw on (Unique-delete q rows u)
  | inr off ↦
      rw off (delete_misses (at_identity (identity_of a)) q rows alone, Unique-delete q rows u)
]
