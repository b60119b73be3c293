-- ===== src/Keys/Ownership.antt =====
-- An owner's label is never replaced by extraction.
use soulmate.Prelude.{
  ◌≡◌, refl, sym, ap, ◌∙◌, Bool, true, false, some, List, [], ◌∷◌, inl, inr, Bool-cases,
  Option-cases, All, find, update_where, find-append_some, some_inj,
}
use soulmate.Keys.Aliases.{Identity, eq_identity}
use soulmate.Keys.Store.{KeyStore, bump_evidence_revision}
use soulmate.Keys.Identities.{identity-cases, eq_identity-false}
use soulmate.Keys.Labels.{is_owner_label, label_at, same_label, relabelled, upsert_label}
use soulmate.Domain.Evidence.{TargetKeyLabel}

abbrev label_identity : TargetKeyLabel → Identity
label_identity l = record { profile_id = l.profile_id; target_type = l.target_type; key = l.key }

abbrev pub labelled_at : Identity → TargetKeyLabel → Bool
labelled_at i = label_at i.profile_id i.target_type i.key

update_elsewhere {ℓ} :
    {A : Type ℓ} (p q : A → Bool) (f : A → A)
    → ((x : A) → p x ≡ true → q x ≡ false)
    → ((x : A) → p x ≡ true → q (f x) ≡ false)
    → (xs : List A) → find q (update_where p f xs) ≡ find q xs
unfolding find update_where
update_elsewhere p q f old new [] = refl
update_elsewhere p q f old new (x ∷ xs) = elim (Bool-cases (p x)) [
  | inl on ↦ rw (on, old x on, new x on) (update_elsewhere p q f old new xs)
  | inr off ↦ rw (off, update_elsewhere p q f old new xs) refl
]

module _ (i : Identity) (entry : TargetKeyLabel) (s : KeyStore) (row : TargetKeyLabel)
    (stored : find (labelled_at i) s.catalog ≡ some row) (owned : is_owner_label row.source ≡ true)
    (proposed : is_owner_label entry.source ≡ false) where
  -- The label that the entry would replace is not the owner's.
  apart :
      (old : TargetKeyLabel)
      → find (same_label entry) s.catalog ≡ some old
      → is_owner_label old.source ≡ false
      → eq_identity (label_identity entry) i ≡ false
  apart old found free = elim (identity-cases (label_identity entry) i) [
    | inr other ↦ other
    | inl same ↦
        let both = some_inj (sym found ∙ ap (λ j. find (labelled_at j) s.catalog) same ∙ stored) in
        absurd (cc (ap (λ (l : TargetKeyLabel). is_owner_label l.source) both))
  ]

  rest_kept :
      (old : TargetKeyLabel)
      → find (same_label entry) s.catalog ≡ some old
      → is_owner_label old.source ≡ false
      → find (labelled_at i) (update_where (same_label entry) (relabelled entry) s.catalog)
        ≡ some row
  rest_kept old found free =
      let other = apart old found free in
      update_elsewhere (same_label entry) (labelled_at i) (relabelled entry)
        (λ l on. eq_identity-false (label_identity l) (label_identity entry) i on other)
        (λ l on. other) s.catalog
      ∙ stored

  upsert_keeps_owner : find (labelled_at i) (upsert_label entry s).1.catalog ≡ some row
  unfolding upsert_label bump_evidence_revision
  upsert_keeps_owner = elim (Option-cases (find (same_label entry) s.catalog)) [
    | inl new ↦ rw (new, proposed) (find-append_some (labelled_at i) s.catalog (entry ∷ []) stored)
    | inr (old, found) ↦ elim (Bool-cases (is_owner_label old.source)) [
      | inl safe ↦ rw (found, safe, proposed) stored
      | inr free ↦ rw (found, free, proposed) (rest_kept old found free)
    ]
  ]

-- Labels written one after another
pub upsert_all : List TargetKeyLabel → KeyStore → KeyStore
upsert_all [] s = s
upsert_all (entry ∷ entries) s = upsert_all entries (upsert_label entry s).1

-- A label that the owner has given a key is still there, unchanged, after any number of extracted
-- labels have been written, for the same key or for others.
pub owner_label_stays :
    (i : Identity) (entries : List TargetKeyLabel) (s : KeyStore) (row : TargetKeyLabel)
    → find (labelled_at i) s.catalog ≡ some row
    → is_owner_label row.source ≡ true
    → All (λ (entry : TargetKeyLabel). is_owner_label entry.source ≡ false) entries
    → find (labelled_at i) (upsert_all entries s).catalog ≡ some row
unfolding upsert_all
owner_label_stays i [] s row stored owned extracted = stored
owner_label_stays i (entry ∷ entries) s row stored owned (proposed, extracted) =
    owner_label_stays i entries (upsert_label entry s).1 row
      (upsert_keeps_owner i entry s row stored owned proposed) owned extracted
