-- ===== src/Learning/ChoiceLaws.antt =====
-- Resolved choices of valid options become valid evidence.
use Prim.Native.String.{String}
use soulmate.Prelude.{
  ℕ, suc, ◌≤◌, ◌≡◌, refl, sym, subst, ◌∙◌, Bool, true, false, not, some, List, [], ◌∷◌, ◌==◌, any,
  map, find, filter, length, ltb, inl, inr, Bool-cases, All, All-append, text_in, eq_iff, arith,
  false≢true, find_test,
}
use soulmate.Exec.{Result, ok}
use soulmate.Text.{is_empty, is_blank, strip, lstrip, rstrip}
use soulmate.Text.SortedSet.{sorted_set, text_in-sorted_set}
use soulmate.Float.{Float, lt_float, in_unit, in_signed_unit, le_float, one_float}
use soulmate.Float.Arith.{min_float, abs_float, sub_float, decimal, round_size, nearest, sum_floats}
use soulmate.Float.Bounds.{clamp_signed_unit}
use soulmate.Float.Rounding.{divides_by_length}
use soulmate.Domain.Decisions.{
  DecisionEvent, DecisionOption, DecisionResolution, Features, option_ok, bad_feature,
}
use soulmate.Domain.Evidence.{Evidence, evidence_ok}
use soulmate.Learning.Choice.{
  LearningError, feature, keys_of, all_keys, least_confidence, confidence_of, alternative_mean,
  negligible, relative_value, choice_evidence, keep_value, learn_features, resolution_evidence,
}

IsNamed : String → Type 0
IsNamed key = is_empty key ≡ false

not_empty : (key : String) → is_blank key ≡ false → is_empty key ≡ false
unfolding strip lstrip rstrip
not_empty String.[] h = h
not_empty (String.◌∷◌ c s) h = refl

features-IsNamed : (f : Features) → any bad_feature f ≡ false → All IsNamed (keys_of f)
unfolding IsNamed
features-IsNamed [] h = tt
features-IsNamed ((k, x) ∷ f) h = (not_empty k (ground arith), features-IsNamed f (ground arith))

abbrev IsValid : DecisionOption → Type 0
IsValid o = option_ok o ≡ true

All-IsNamed : (options : List DecisionOption) → All IsValid options → All IsNamed (all_keys options)
unfolding all_keys option_ok
All-IsNamed [] h = tt
All-IsNamed (o ∷ options) (valid, h) =
    All-append IsNamed (keys_of o.features) (all_keys options)
      (features-IsNamed o.features (ground arith)) (All-IsNamed options h)

IsNamed-of_in : (z : String) (xs : List String) → All IsNamed xs → text_in z xs ≡ true → IsNamed z
IsNamed-of_in z [] h m = absurd (false≢true m)
IsNamed-of_in z (x ∷ xs) (named, h) m = elim (Bool-cases (x == z)) [
  | inl same ↦ subst IsNamed ((eq_iff x z).0 same) named
  | inr other ↦ IsNamed-of_in z xs h (rw other at m)
]

All-of_in : (xs : List String) → ((z : String) → text_in z xs ≡ true → IsNamed z) → All IsNamed xs
All-of_in [] f = tt
All-of_in (x ∷ xs) f =
    (f x (rw ((eq_iff x x).1 refl) refl), All-of_in xs (λ z m. f z (rw m (ground arith))))

sorted-IsNamed : (xs : List String) → All IsNamed xs → All IsNamed (sorted_set xs)
sorted-IsNamed xs h =
    All-of_in (sorted_set xs) (λ z m. IsNamed-of_in z xs h (sym (text_in-sorted_set z xs) ∙ m))

min_in_unit : (x y : Float) → in_unit x ≡ true → in_unit y ≡ true → in_unit (min_float x y) ≡ true
unfolding min_float
min_in_unit x y h k = elim (Bool-cases (lt_float y x)) [
  | inl less ↦ rw less k
  | inr more ↦ rw more h
]

least_in_unit :
    (least : Float) (options : List DecisionOption)
    → in_unit least ≡ true
    → All IsValid options
    → in_unit (least_confidence least options) ≡ true
unfolding option_ok
least_in_unit least [] h all = h
least_in_unit least (o ∷ options) h (valid, all) =
    least_in_unit (min_float least o.feature_confidence) options
      (min_in_unit least o.feature_confidence h (ground arith)) all

confidence_in_unit :
    (options : List DecisionOption) → All IsValid options → in_unit (confidence_of options) ≡ true
unfolding option_ok
confidence_in_unit [] h = unfold in_unit le_float one_float in refl
confidence_in_unit (o ∷ options) (valid, h) =
    least_in_unit o.feature_confidence options (ground arith) h

strength_in_unit : in_unit (decimal 9 1) ≡ true
unfolding in_unit le_float one_float decimal round_size nearest
strength_in_unit = refl

module _ (resolution : DecisionResolution) (decision : DecisionEvent) (profile_id : String)
    (created_at : ℕ) (options : List DecisionOption) (valid : All IsValid options)
    (reported : is_empty resolution.source_event_id ≡ false) where
  abbrev evidence : String → ℕ → Float → Evidence
  evidence = choice_evidence resolution decision profile_id created_at options

  choice_ok :
      (key : String) (index : ℕ) (value : Float)
      → IsNamed key
      → in_signed_unit value ≡ true
      → evidence_ok (evidence key index value) ≡ true
  unfolding evidence_ok IsNamed
  choice_ok key index value named bounded =
      rw (named, reported, strength_in_unit, confidence_in_unit options valid, bounded) refl

  AreValid : Result LearningError (List Evidence) → Type 0
  AreValid r =
      (items : List Evidence) × (r ≡ ok items) × All (λ (e : Evidence). evidence_ok e ≡ true) items

  keep_value-AreValid :
      (key : String) (index : ℕ) (value : Float) (others : Result LearningError (List Evidence))
      → IsNamed key
      → in_signed_unit value ≡ true
      → AreValid others
      → AreValid
          (keep_value resolution decision profile_id created_at options key index value others)
  unfolding AreValid
  keep_value-AreValid key index value others named bounded (items, done, fine) =
      elim (Bool-cases (lt_float (abs_float value) negligible)) [
        | inl skip ↦ rw skip (items, done, fine)
        | inr keep ↦
            let new = choice_ok key index value named bounded in
            rw (keep, new, done) (evidence key index value ∷ items, refl, (new, fine))
      ]

  learn_features-AreValid :
      (chosen : DecisionOption) (alternatives : List DecisionOption) (keys : List String)
      (index : ℕ)
      → 1 ≤ length alternatives
      → All IsNamed keys
      → AreValid (
          learn_features resolution decision profile_id created_at options chosen alternatives keys
            index)
  unfolding learn_features alternative_mean AreValid
  learn_features-AreValid chosen alternatives [] index h named = ([], refl, tt)
  learn_features-AreValid chosen alternatives (key ∷ keys) index h (name, named) =
      let total = sum_floats (map (λ (o : DecisionOption). feature key o.features) alternatives) in
      let (mean, divided) = divides_by_length total (length alternatives) h in
      rw divided (
        keep_value-AreValid key index (relative_value key chosen mean) _ name
          (clamp_signed_unit (sub_float (feature key chosen.features) mean))
          (learn_features-AreValid chosen alternatives keys (suc index) h named))

filter_filled :
    {A : Type 0} (p : A → Bool) (xs : List A) → any p xs ≡ true → 1 ≤ length (filter p xs)
unfolding filter
filter_filled p [] h = absurd (false≢true h)
filter_filled p (x ∷ xs) h = elim (Bool-cases (p x)) [
  | inl on ↦ rw on (omega arith)
  | inr off ↦ rw off (filter_filled p xs (rw off at h))
]

-- A choice among valid options of one decision, of which at least one has another id than the
-- chosen one, always becomes evidence, and all of it is valid: the constructor of `Evidence` never
-- raises, and the mean over the alternatives never divides by zero.
pub resolution_evidence-IsValid :
    (resolution : DecisionResolution) (decision : DecisionEvent) (created_at : ℕ)
    (options : List DecisionOption) (chosen : DecisionOption)
    → All IsValid options
    → is_empty resolution.source_event_id ≡ false
    → any (λ (o : DecisionOption). not (o.decision_id == decision.id)) options ≡ false
    → ltb (length options) 2 ≡ false
    → find (λ (o : DecisionOption). o.id == resolution.chosen_option_id) options ≡ some chosen
    → any (λ (o : DecisionOption). not (o.id == resolution.chosen_option_id)) options ≡ true
    → (items : List Evidence) × (resolution_evidence resolution decision decision.profile_id
          created_at options
        ≡ ok items)
      × All (λ (e : Evidence). evidence_ok e ≡ true) items
unfolding resolution_evidence AreValid
resolution_evidence-IsValid resolution decision created_at options chosen valid reported own enough
      found others =
    let same =
      (eq_iff chosen.id resolution.chosen_option_id).0
        (find_test (λ (o : DecisionOption). o.id == resolution.chosen_option_id) options found) in
    let filled =
      subst (λ x. 1 ≤ length (filter (λ (o : DecisionOption). not (o.id == x)) options)) (sym same)
        (filter_filled (λ (o : DecisionOption). not (o.id == resolution.chosen_option_id)) options
          others) in
    rw (enough, own, found, (eq_iff decision.profile_id decision.profile_id).1 refl)
      (learn_features-AreValid resolution decision decision.profile_id created_at options valid
        reported chosen (filter (λ (o : DecisionOption). not (o.id == chosen.id)) options)
        (sorted_set (all_keys options)) 0 filled
        (sorted-IsNamed (all_keys options) (All-IsNamed options valid)))
