-- ===== src/Keys/Upsert.antt =====
-- `upsert` and `remove` keep the active aliases without cycles.
use soulmate.Prelude.{
  String, ◌≡◌, refl, sym, ap, subst, ◌∙◌, Bool, true, false, ◌⊎◌, none, List, [], ◌∷◌, ◌++◌, any,
  find, filter, map_option, inl, inr, Bool-cases, if◌then◌else◌, arith, delete_where, ℕ, false≢true,
  find-none_of_any,
}
use soulmate.Exec.{ok, Result-cases}
use soulmate.Keys.Records.{TargetKeyAlias, is_active}
use soulmate.Keys.Aliases.{
  Identity, Entry, eq_identity, identity_of, resolved_of, at_key, key_alias_map,
}
use soulmate.Keys.Store.{
  KeyStore, at_identity, put_alias, beside, upsert, require_acyclic, acyclic_if_active,
  bump_evidence_revision,
}
use soulmate.Keys.Identities.{identity-cases, eq_identity_refl, eq_identity-path}
use soulmate.Keys.Depth.{Depth}
use soulmate.Keys.Entries.{Unique, entries, active_at}
use soulmate.Keys.Rows.{put_other, put_inactive, checked_as_written}
use soulmate.Keys.Unique.{Unique-filter, Unique-append, Unique-put, Unique-delete, delete_misses}
use soulmate.Keys.Acyclic.{Ends, Builds, Builds-Ends, IsAcyclic, Fewer, Fewer-Depth}

module _ (alias : TargetKeyAlias) (rows : List TargetKeyAlias) (h : IsAcyclic rows) where
  abbrev own : Identity
  own = identity_of alias

  abbrev checked : List TargetKeyAlias
  checked = filter (beside alias) rows ++ alias ∷ []

  not_beside_own :
      (xs : List TargetKeyAlias) → any (at_identity own) (filter (beside alias) xs) ≡ false
  unfolding filter
  not_beside_own [] = refl
  not_beside_own (a ∷ xs) = ground (arith, not_beside_own xs)

  Unique-checked : Unique checked
  Unique-checked =
      Unique-append (filter (beside alias) rows) alias (Unique-filter (beside alias) rows h.unique)
        (not_beside_own rows)

  Fewer-inactive :
      is_active alias.status ≡ false → (i : Identity) → Fewer rows (put_alias alias rows) i
  unfolding Fewer
  Fewer-inactive off i k = elim (identity-cases own (at_key i k)) [
    | inr other ↦ inr (ap (map_option resolved_of) (put_other alias (at_key i k) other rows))
    | inl same ↦ inl (
        subst (λ j. find (active_at j) (put_alias alias rows) ≡ none) same
          (put_inactive alias off rows))
  ]

  -- At another profile or type nothing changes.
  Fewer-elsewhere :
      (i : Identity)
      → eq_identity (at_key own i.key) i ≡ false
      → Fewer rows (put_alias alias rows) i
  unfolding Fewer
  Fewer-elsewhere i apart k = elim (identity-cases own (at_key i k)) [
    | inr other ↦ inr (ap (map_option resolved_of) (put_other alias (at_key i k) other rows))
    | inl same ↦ absurd (
        false≢true (sym apart ∙ ap (λ j. eq_identity (at_key j i.key) i) same ∙ eq_identity_refl i))
  ]

  Fewer-checked :
      is_active alias.status ≡ true
      → (k : String) → Fewer checked (put_alias alias rows) (at_key own k)
  unfolding Fewer
  Fewer-checked on k l = inr (sym (checked_as_written alias on rows l))

  put-Ends : Builds checked → is_active alias.status ≡ true → Ends (entries (put_alias alias rows))
  unfolding Ends
  put-Ends built on i = elim (identity-cases (at_key own i.key) i) [
    | inr apart ↦
        let (n, d) = h.ends i in
        Fewer-Depth rows (put_alias alias rows) i n (Fewer-elsewhere i apart) d
    | inl same ↦
        let (n, d) = Builds-Ends checked Unique-checked built (at_key own i.key) in
        subst (λ j. (m : ℕ) × Depth (entries (put_alias alias rows)) j j.key m) same
          (Fewer-Depth checked (put_alias alias rows) (at_key own i.key) n (Fewer-checked on i.key)
            d)
  ]

  put-Ends_inactive : is_active alias.status ≡ false → Ends (entries (put_alias alias rows))
  unfolding Ends
  put-Ends_inactive off i =
      let (n, d) = h.ends i in Fewer-Depth rows (put_alias alias rows) i n (Fewer-inactive off i) d

  put_IsAcyclic :
      (m : List Entry)
      → (if is_active alias.status then key_alias_map checked else ok []) ≡ ok m
      → IsAcyclic (put_alias alias rows)
  put_IsAcyclic m accepted = record {
    unique = Unique-put alias rows h.unique;
    ends = elim (Bool-cases (is_active alias.status)) [
      | inl on ↦ put-Ends (m, rw on at accepted) on
      | inr off ↦ put-Ends_inactive off
    ];
  }

-- The write of an alias keeps the table of aliases without cycles, and where it is refused the
-- store is unchanged.
pub upsert-IsAcyclic :
    (alias : TargetKeyAlias) (s : KeyStore)
    → IsAcyclic s.aliases
    → IsAcyclic (upsert alias s).1.aliases
unfolding upsert require_acyclic bump_evidence_revision
upsert-IsAcyclic alias s h = elim (Result-cases (acyclic_if_active alias s)) [
  | inl (e, refused) ↦ rw refused h
  | inr (m, accepted) ↦ rw accepted (put_IsAcyclic alias s.aliases h m accepted)
]

none_left :
    (p : TargetKeyAlias → Bool) (i : Identity) (a : TargetKeyAlias) (rows : List TargetKeyAlias)
    → active_at i a ≡ true
    → any (at_identity (identity_of a)) rows ≡ false
    → find (active_at i) (delete_where p rows) ≡ none
none_left p i a rows on alone =
    let here = eq_identity-path (identity_of a) i (ground arith) in
    find-none_of_any (active_at i) (at_identity i) (λ b off. rw off (ground arith))
      (delete_where p rows)
      (delete_misses (at_identity i) p rows
        (subst (λ j. any (at_identity j) rows ≡ false) here alone))

delete_fewer :
    (p : TargetKeyAlias → Bool) (i : Identity) (rows : List TargetKeyAlias)
    → Unique rows
    → (find (active_at i) (delete_where p rows) ≡ none)
      ⊎ (find (active_at i) (delete_where p rows) ≡ find (active_at i) rows)
unfolding delete_where find Unique
delete_fewer p i [] u = inl refl
delete_fewer p i (a ∷ rows) (alone, u) = elim (Bool-cases (active_at i a)) [
  | inr off ↦ elim (Bool-cases (p a)) [
    | inl gone ↦ rw (off, gone) (delete_fewer p i rows u)
    | inr kept ↦ rw (off, kept, off) (delete_fewer p i rows u)
  ]
  | inl on ↦ elim (Bool-cases (p a)) [
    | inr kept ↦ rw (on, kept, on) (inr refl)
    | inl gone ↦ rw gone (inl (none_left p i a rows on alone))
  ]
]

-- The removal of rows keeps the table of aliases without cycles.
pub delete-IsAcyclic :
    (p : TargetKeyAlias → Bool) (rows : List TargetKeyAlias)
    → IsAcyclic rows
    → IsAcyclic (delete_where p rows)
unfolding Ends Fewer
delete-IsAcyclic p rows h = record {
  unique = Unique-delete p rows h.unique;
  ends = λ i.
      let (n, d) = h.ends i in
      Fewer-Depth rows (delete_where p rows) i n
        (λ k. elim (delete_fewer p (at_key i k) rows h.unique) [
          | inl gone ↦ inl gone
          | inr same ↦ inr (ap (map_option resolved_of) same)
        ])
        d;
}
