-- ===== src/External/Scopes.antt =====
-- The scopes that are accepted, and that an identity keeps them.
use soulmate.Prelude.{
  String, ◌≡◌, refl, subst, true, false, not, eq_refl, List, [], ◌∷◌, All, any, text_in, arith,
}
use soulmate.Exec.{ok, ok_inj, passed}
use soulmate.Text.SortedSet.{
  sorted_set, Increasing, sorted_set-Increasing, sorted_set_fixed, text_in-sorted_set,
}
use soulmate.External.Records.{eq_texts, no_texts}
use soulmate.External.Store.{scope_required, unknown_scope}
use soulmate.External.Service.{validate_scopes, service_scopes}

known-All :
    (xs : List String)
    → any (λ x. not (text_in x service_scopes)) xs ≡ false
    → All (λ x. text_in x service_scopes ≡ true) xs
known-All [] h = tt
known-All (x ∷ xs) h = (ground arith, known-All xs (ground arith))

eq_texts_refl : (xs : List String) → eq_texts xs xs ≡ true
eq_texts_refl [] = refl
eq_texts_refl (x ∷ xs) = rw (eq_refl x, eq_texts_refl xs)

module _ (scopes normalized : List String) (valid : validate_scopes scopes ≡ ok normalized) where
  checked :
      (no_texts (sorted_set scopes) ≡ false)
      × (any (λ x. not (text_in x service_scopes)) (sorted_set scopes) ≡ false)
      × (sorted_set scopes ≡ normalized)
  unfolding validate_scopes
  checked =
      let (some_left, h) = passed scope_required (no_texts (sorted_set scopes)) _ valid in
      let (good, h') =
        passed unknown_scope (any (λ x. not (text_in x service_scopes)) (sorted_set scopes)) _ h in
      (some_left, good, ok_inj h')

  -- Validated scopes are not empty, strictly increasing, known to the service, and the same as the
  -- given ones as a set; to validate them again changes nothing.
  pub validate_scopes_lem :
      (no_texts normalized ≡ false)
      × Increasing normalized
      × All (λ x. text_in x service_scopes ≡ true) normalized
      × ((x : String) → text_in x normalized ≡ text_in x scopes)
      × (validate_scopes normalized ≡ ok normalized)
  unfolding validate_scopes
  validate_scopes_lem =
      let (some_left, good, same) = checked in
      let fixed = sorted_set_fixed (sorted_set scopes) (sorted_set-Increasing scopes) in
      subst
        (λ n.
          (no_texts n ≡ false)
          × Increasing n
          × All (λ x. text_in x service_scopes ≡ true) n
          × ((x : String) → text_in x n ≡ text_in x scopes)
          × (validate_scopes n ≡ ok n))
        same
        (
          some_left,
          sorted_set-Increasing scopes,
          known-All (sorted_set scopes) good,
          (λ x. text_in-sorted_set x scopes),
          rw (fixed, some_left, good),
        )
