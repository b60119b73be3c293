-- ===== src/Keys/Setting.antt =====
-- What `KeyLabelService.set_label` stores and returns, on every branch.
use soulmate.Prelude.{
  ℕ, String, ◌≡◌, ◌≢◌, ◌⊎◌, refl, sym, ap, ◌∙◌, Bool, true, false, ◌&&◌, Option, none, some, List,
  [], ◌∷◌, inl, inr, Bool-cases, Option-cases, All, find, update_where, is_none, eq_refl, eqb_iff,
  find-append_none, some_inj, none-ne-some,
}
use soulmate.Exec.{ok, err}
use soulmate.Keys.Records.{EvidenceTargetType, target_type_index}
use soulmate.Keys.Store.{KeyStore, bump_evidence_revision}
use soulmate.Keys.Labels.{
  is_owner_label, same_label, relabelled, upsert_label, get_label, trimmed_label, clean_aliases,
  key_unused, nothing_to_name, uses, first_written, set_label,
}
use soulmate.Keys.Naming.{named_ok}
use soulmate.DecisionIo.Provenance.{is_nil}
use soulmate.Domain.Evidence.{Evidence, evidence_ok, TargetKeyLabel, owner}

find_update {ℓ} :
    {A : Type ℓ} (p : A → Bool) (f : A → A)
    → ((x : A) → p (f x) ≡ true)
    → (xs : List A) (x : A) → find p xs ≡ some x
    → find p (update_where p f xs) ≡ some (f x)
unfolding find update_where
find_update p f keeps [] x h = absurd (none-ne-some h)
find_update p f keeps (y ∷ xs) x h = elim (Bool-cases (p y)) [
  | inl on ↦ rw (on, keeps y) (ap (λ z. some (f z)) (some_inj (rw on at h)))
  | inr off ↦ rw (off, off) (find_update p f keeps xs x (rw off at h))
]

some_named :
    (o : Option String) (xs : List String)
    → (o ≢ none) ⊎ (xs ≢ [])
    → (is_none o && is_nil xs) ≡ false
some_named none [] (inl h) = absurd (h refl)
some_named none [] (inr h) = absurd (h refl)
some_named none (x ∷ xs) h = refl
some_named (some t) xs h = refl

itself : (entry : TargetKeyLabel) → same_label entry entry ≡ true
itself entry =
    rw
      (
        eq_refl entry.profile_id,
        (eqb_iff (target_type_index entry.target_type) (target_type_index entry.target_type)).1
            refl,
        eq_refl entry.key,
      )
      refl

-- An owner's label with the time of creation of the one that it replaces is stored as it is.
module _ (entry : TargetKeyLabel) (s : KeyStore) (owned : is_owner_label entry.source ≡ true)
    (dated : (row : TargetKeyLabel)
      → find (same_label entry) s.catalog ≡ some row
      → entry.created_at ≡ row.created_at) where
  relabelled_lem :
      (row : TargetKeyLabel)
      → find (same_label entry) s.catalog ≡ some row
      → relabelled entry row ≡ entry
  relabelled_lem row old = ap (λ t. record entry { created_at = t }) (sym (dated row old))

  replaced :
      (row : TargetKeyLabel)
      → find (same_label entry) s.catalog ≡ some row
      → find (same_label entry) (update_where (same_label entry) (relabelled entry) s.catalog)
        ≡ some entry
  replaced row old =
      find_update (same_label entry) (relabelled entry) (λ x. itself entry) s.catalog row old
      ∙ ap some (relabelled_lem row old)

  upsert_label_lem :
      ((upsert_label entry s).0 ≡ entry)
      × (find (same_label entry) (upsert_label entry s).1.catalog ≡ some entry)
  unfolding upsert_label bump_evidence_revision find
  upsert_label_lem = elim (Option-cases (find (same_label entry) s.catalog)) [
    | inl new ↦
        rw (new, owned)
          (
            refl,
            find-append_none (same_label entry) s.catalog (entry ∷ []) new ∙ rw (itself entry) refl,
          )
    | inr (row, old) ↦ elim (Bool-cases (is_owner_label row.source)) [
      | inl own ↦ rw (old, own, owned) (relabelled_lem row old, replaced row old)
      | inr off ↦ rw (old, off, owned) (relabelled_lem row old, replaced row old)
    ]
  ]

module _ (profile_id : String) (target_type : EvidenceTargetType) (key : String)
    (label : Option String) (aliases : List String) (now : ℕ) (s : KeyStore) where
  -- The label as it is stored: the trimmed text and the cleaned aliases, the owner as the source,
  -- and the time of the first label of the key.
  abbrev pub expected : TargetKeyLabel
  expected = record {
    profile_id = profile_id;
    target_type = target_type;
    key = key;
    label = trimmed_label label;
    aliases = clean_aliases aliases (trimmed_label label);
    source = owner;
    created_at = first_written now (get_label profile_id target_type key s);
    updated_at = now;
  }

  expected_dated :
      (row : TargetKeyLabel)
      → find (same_label expected) s.catalog ≡ some row
      → expected.created_at ≡ row.created_at
  unfolding get_label
  expected_dated row old = ap (first_written now) old

  -- Where all evidence is valid, an attempt of the owner to label a key has three ends. For a key
  -- without evidence, and for a blank label without aliases that are left after cleaning, it raises
  -- the error of the case and changes nothing. Otherwise it returns the label with the trimmed
  -- text, the cleaned aliases, the owner as its source and the time of the first label of the key,
  -- and this is the label that is then stored for the key; the constructor never raises.
  pub set_label_lem :
      All (λ (e : Evidence). evidence_ok e ≡ true) s.evidence
      → (uses profile_id target_type key s ≡ false
          → set_label profile_id target_type key label aliases now s ≡ (err key_unused, s))
        × (uses profile_id target_type key s ≡ true
            → trimmed_label label ≡ none
            → clean_aliases aliases none ≡ []
            → set_label profile_id target_type key label aliases now s ≡ (err nothing_to_name, s))
        × (uses profile_id target_type key s ≡ true
            → (trimmed_label label ≢ none) ⊎ (clean_aliases aliases (trimmed_label label) ≢ [])
            → let out = set_label profile_id target_type key label aliases now s in
              (out.0 ≡ ok expected) × (get_label profile_id target_type key out.1 ≡ some expected))
  unfolding set_label get_label
  set_label_lem valid = (
    (λ unused. rw unused refl),
    (λ used unnamed empty. rw (used, unnamed, empty) refl),
    (λ used something.
        let named = some_named (trimmed_label label) _ something in
        let fine = named_ok profile_id target_type key label aliases now s valid used named in
        let (same, stored) = upsert_label_lem expected s refl expected_dated in
        rw (used, named, fine) (ap ok same, stored)),
  )
