-- ===== src/Keys/Naming.antt =====
-- The labels that `set_label` builds are valid.
use Prim.Native.Char.{Char, code}
use Prim.Native.String.{String}
use soulmate.Prelude.{
  ℕ, zero, suc, ◌≡◌, refl, sym, subst, ◌∙◌, Bool, true, false, ◌&&◌, ◌||◌, Option, none, some, List,
  [], ◌∷◌, ◌++◌, ◌==◌, any, inl, inr, Bool-cases, All, text_in, is_none, arith, false≢true, Member,
  at_head, in_tail, mem-sort_by, mem-filter, All-Member, eq_iff,
}
use soulmate.Text.{is_space, strip, lstrip, rstrip, trim_cons, is_empty, is_blank}
use soulmate.Text.Strip.{IsTrimmed, strip-IsTrimmed}
use soulmate.Keys.Records.{EvidenceTargetType}
use soulmate.Keys.Store.{KeyStore}
use soulmate.Keys.Evidence.{list_for_target}
use soulmate.Keys.Labels.{
  slice, take, label_max_length, alias_max_count, is_text, keep_alias, clean_all, clean_aliases,
  trimmed_label, uses, owner_label,
}
use soulmate.DecisionIo.Provenance.{is_nil, blank_text}
use soulmate.Domain.Evidence.{Evidence, evidence_ok, label_ok, repeats_text}

-- A text that starts with no space is not blank.
starts_visible :
    (c : Char) (s : String) → is_space (code c) ≡ false → is_blank (String.◌∷◌ c s) ≡ false
unfolding strip lstrip rstrip
starts_visible c s h = rw h (visible c (rstrip s) h)
  where
    visible : (c : Char) (r : String) → is_space (code c) ≡ false → is_empty (trim_cons c r) ≡ false
    visible c String.[] h = rw h refl
    visible c (String.◌∷◌ d r) h = refl

slice_visible :
    (n : ℕ) (s : String)
    → IsTrimmed s
    → is_empty (slice (suc n) s) ≡ false
    → is_blank (slice (suc n) s) ≡ false
slice_visible n String.[] t h = absurd (cc h)
slice_visible n (String.◌∷◌ c s) t h = starts_visible c (slice n s) t

-- The trimmed and shortened form of a text is empty or not blank.
shortened_visible :
    (n : ℕ) (s : String)
    → is_empty (slice (suc n) (strip s)) ≡ false
    → is_blank (slice (suc n) (strip s)) ≡ false
shortened_visible n s h = slice_visible n (strip s) (strip-IsTrimmed s) h

slice_filled : (n : ℕ) (s : String) → is_empty s ≡ false → is_empty (slice (suc n) s) ≡ false
slice_filled n String.[] h = h
slice_filled n (String.◌∷◌ c s) h = refl

trimmed_label_lem : (label : Option String) → blank_text (trimmed_label label) ≡ false
trimmed_label_lem none = refl
trimmed_label_lem (some l) = elim (Bool-cases (is_blank l)) [
  | inl blank ↦ rw blank refl
  | inr filled ↦ rw filled (shortened_visible 199 l (slice_filled 199 (strip l) filled))
]

-- The aliases so far: none is blank and none is repeated.
record AreClean (kept : List String) : Type 0 where
  visible : any is_blank kept ≡ false
  distinct : repeats_text kept ≡ false

any-snoc :
    (p : String → Bool) (xs : List String) (x : String)
    → any p xs ≡ false
    → p x ≡ false
    → any p (xs ++ x ∷ []) ≡ false
any-snoc p [] x h k = rw k refl
any-snoc p (y ∷ xs) x h k = ground (arith, any-snoc p xs x)

repeats-snoc :
    (xs : List String) (x : String)
    → repeats_text xs ≡ false
    → text_in x xs ≡ false
    → repeats_text (xs ++ x ∷ []) ≡ false
repeats-snoc [] x h new = refl
repeats-snoc (y ∷ xs) x h new =
    let once : text_in y xs ≡ false = ground arith in
    let later : repeats_text xs ≡ false = ground arith in
    let absent : text_in x xs ≡ false = ground arith in
    let other : (x == y) ≡ false = elim (Bool-cases (x == y)) [
      | inr off ↦ off
      | inl on ↦
          let apart : (y == x) ≡ false = ground arith in
          absurd (
            false≢true
              (sym (subst (λ z. (y == z) ≡ false) ((eq_iff x y).0 on) apart) ∙ (eq_iff y y).1 refl))
    ] in
    rw (any-snoc (λ z. z == y) xs x once other, repeats-snoc xs x later absent) refl

keep_alias-AreClean :
    (label : Option String) (value : String) (kept : List String)
    → AreClean kept
    → AreClean (keep_alias label value kept)
keep_alias-AreClean label value kept h =
    let trimmed = slice label_max_length (strip value) in
    elim (Bool-cases (is_empty trimmed || is_text label trimmed || text_in trimmed kept)) [
      | inl skip ↦ rw skip h
      | inr new ↦
          let filled : is_empty trimmed ≡ false = ground arith in
          let absent : text_in trimmed kept ≡ false = ground arith in
          rw new (record {
            visible = any-snoc is_blank kept trimmed h.visible (shortened_visible 199 value filled);
            distinct = repeats-snoc kept trimmed h.distinct absent;
          })
    ]

clean_all-AreClean :
    (values : List String) (label : Option String) (kept : List String)
    → AreClean kept
    → AreClean (clean_all values label kept)
unfolding clean_all
clean_all-AreClean [] label kept h = h
clean_all-AreClean (value ∷ values) label kept h =
    clean_all-AreClean values label (keep_alias label value kept)
      (keep_alias-AreClean label value kept h)

take_misses :
    (p : String → Bool) (n : ℕ) (xs : List String) → any p xs ≡ false → any p (take n xs) ≡ false
take_misses p zero xs h = refl
take_misses p (suc n) [] h = refl
take_misses p (suc n) (x ∷ xs) h = ground (arith, take_misses p n xs)

take_distinct :
    (n : ℕ) (xs : List String) → repeats_text xs ≡ false → repeats_text (take n xs) ≡ false
take_distinct zero xs h = refl
take_distinct (suc n) [] h = refl
take_distinct (suc n) (x ∷ xs) h =
    ground (arith, take_distinct n xs, take_misses (λ y. y == x) n xs)

clean_aliases-AreClean :
    (values : List String) (label : Option String) → AreClean (clean_aliases values label)
unfolding clean_aliases
clean_aliases-AreClean values label =
    let h = clean_all-AreClean values label [] (record { visible = refl; distinct = refl }) in
    record {
      visible = take_misses is_blank alias_max_count (clean_all values label []) h.visible;
      distinct = take_distinct alias_max_count (clean_all values label []) h.distinct;
    }

any-Member :
    {A : Type 0} (p : A → Bool) (xs : List A)
    → any p xs ≡ true
    → (x : A) × Member x xs × (p x ≡ true)
any-Member p [] h = absurd (false≢true h)
any-Member p (x ∷ xs) h = elim (Bool-cases (p x)) [
  | inl on ↦ (x, at_head refl, on)
  | inr off ↦ let (y, m, on) = any-Member p xs (rw off at h) in (y, in_tail m, on)
]

-- A key that evidence uses is not empty.
used_filled :
    (profile_id : String) (target_type : EvidenceTargetType) (key : String) (s : KeyStore)
    → All (λ (e : Evidence). evidence_ok e ≡ true) s.evidence
    → uses profile_id target_type key s ≡ true
    → is_empty key ≡ false
unfolding list_for_target evidence_ok
used_filled profile_id target_type key s valid h =
    let (e, m, _) = any-Member _ (list_for_target profile_id key s) h in
    let (stored, mine) = mem-filter _ s.evidence e (mem-sort_by _ _ e m) in
    let fine = All-Member (λ (e : Evidence). evidence_ok e ≡ true) s.evidence e valid stored in
    let same : e.target_key ≡ key = (eq_iff e.target_key key).0 (ground arith) in
    subst (λ k. is_empty k ≡ false) same (ground arith)

module _ (profile_id : String) (target_type : EvidenceTargetType) (key : String)
    (label : Option String) (aliases : List String) (now : ℕ) (s : KeyStore)
    (valid : All (λ (e : Evidence). evidence_ok e ≡ true) s.evidence) where
  abbrev pub cleaned : List String
  cleaned = clean_aliases aliases (trimmed_label label)

  pub named_ok :
      uses profile_id target_type key s ≡ true
      → (is_none (trimmed_label label) && is_nil cleaned) ≡ false
      → label_ok (owner_label profile_id target_type key (trimmed_label label) cleaned now s) ≡ true
  unfolding label_ok
  named_ok used named =
      let clean = clean_aliases-AreClean aliases (trimmed_label label) in
      rw
        (
          used_filled profile_id target_type key s valid used,
          trimmed_label_lem label,
          clean.visible,
          clean.distinct,
          named,
        )
        refl
