-- ===== src/Prelude/Tables.antt =====
-- SQL tables as lists of rows: SELECT of the first match, UPDATE and DELETE with a WHERE test.
use mathlib.Core.Path.{◌≡◌, refl, subst}
use mathlib.Core.Bool.{Bool, true, false}
use mathlib.Core.Logic.{inl, inr}
use mathlib.Core.Option.{Option, none, some}
use mathlib.Core.List.{List, [], ◌∷◌, ◌++◌, map}
use native.Mathlib.Omega.{arith}
use soulmate.Prelude.Tests.{if◌then◌else◌, Bool-cases, some_inj, none-ne-some}
use soulmate.Prelude.Lists.{any, All}

abbrev pub map_option {ℓ κ} : {A : Type ℓ} {B : Type κ} → (A → B) → Option A → Option B
map_option f none = none
map_option f (some a) = some (f a)

module _ {ℓ} {A : Type ℓ} where
  -- `session.scalar(select(...).where(p))`
  unfoldable pub find : (A → Bool) → List A → Option A
  find p [] = none
  find p (x ∷ xs) = if p x then some x else find p xs

  -- `update(...).where(p).values(...)` changes each row by this function.
  abbrev pub set_where : (A → Bool) → (A → A) → A → A
  set_where p f x = if p x then f x else x

  unfoldable pub update_where : (A → Bool) → (A → A) → List A → List A
  update_where p f xs = map (set_where p f) xs

  -- `delete(...).where(p)`
  unfoldable pub delete_where : (A → Bool) → List A → List A
  delete_where p [] = []
  delete_where p (x ∷ xs) = let rest = delete_where p xs in if p x then rest else x ∷ rest

  -- A lookup finds the changed row, if the change keeps what the lookup tests.
  pub find-map :
      (q : A → Bool) (g : A → A)
      → ((x : A) → q (g x) ≡ q x)
      → (xs : List A) → find q (map g xs) ≡ map_option g (find q xs)
  unfolding find
  find-map q g keep [] = refl
  find-map q g keep (x ∷ xs) = ground (arith, keep x, find-map q g keep xs)

  -- What a lookup returns passes its test.
  pub find_test : (p : A → Bool) (xs : List A) {x : A} → find p xs ≡ some x → p x ≡ true
  unfolding find
  find_test p [] h = ground arith
  find_test p (y ∷ xs) h = elim (Bool-cases (p y)) [
    | inl e ↦ ground arith
    | inr e ↦ find_test p xs (rw e at h)
  ]

  pub find-append_none :
      (p : A → Bool) (xs ys : List A) → find p xs ≡ none → find p (xs ++ ys) ≡ find p ys
  unfolding find
  find-append_none p [] ys h = refl
  find-append_none p (x ∷ xs) ys h = ground (arith, find-append_none p xs ys)

  pub find-append_some :
      (p : A → Bool) (xs ys : List A) {x : A} → find p xs ≡ some x → find p (xs ++ ys) ≡ some x
  unfolding find
  find-append_some p [] ys h = ground arith
  find-append_some p (y ∷ xs) ys {x = x} h = ground (arith, find-append_some p xs ys {x = x})

  -- A row that is found, and that passes another test, makes that test hold of some row.
  pub any_of_find :
      (p q : A → Bool) (xs : List A) {x : A} → find p xs ≡ some x → q x ≡ true → any q xs ≡ true
  unfolding find
  any_of_find p q [] h t = ground arith
  any_of_find p q (y ∷ xs) {x = x} h t = ground (arith, any_of_find p q xs {x = x})

  pub find-none_of_any :
      (p q : A → Bool)
      → ((x : A) → q x ≡ false → p x ≡ false)
      → (xs : List A) → any q xs ≡ false
      → find p xs ≡ none
  unfolding find
  find-none_of_any p q weaker [] h = refl
  find-none_of_any p q weaker (x ∷ xs) h = ground (arith, weaker x, find-none_of_any p q weaker xs)

  -- What holds of every row holds of the one found.
  pub find-All :
      (P : A → Type 0) (p : A → Bool) (xs : List A) {x : A} → All P xs → find p xs ≡ some x → P x
  unfolding find
  find-All P p [] h e = absurd (none-ne-some e)
  find-All P p (y ∷ xs) {x = x} h e = elim (Bool-cases (p y)) [
    | inl on ↦ subst P (some_inj (rw on at e)) h.0
    | inr off ↦ find-All P p xs {x = x} h.1 (rw off at e)
  ]

  pub All-delete_where :
      (P : A → Type 0) (p : A → Bool) (xs : List A) → All P xs → All P (delete_where p xs)
  unfolding delete_where
  All-delete_where P p [] h = tt
  All-delete_where P p (y ∷ xs) h = elim (Bool-cases (p y)) [
    | inl on ↦ rw on (All-delete_where P p xs h.1)
    | inr off ↦ rw off (h.0, All-delete_where P p xs h.1)
  ]

  -- An UPDATE keeps what each changed row keeps.
  pub All-update_where :
      (P : A → Type 0) (p : A → Bool) (f : A → A)
      → ((x : A) → p x ≡ true → P x → P (f x))
      → (xs : List A) → All P xs
      → All P (update_where p f xs)
  unfolding update_where
  All-update_where P p f keep [] h = tt
  All-update_where P p f keep (y ∷ xs) h = elim (Bool-cases (p y)) [
    | inl on ↦ rw on (keep y on h.0, All-update_where P p f keep xs h.1)
    | inr off ↦ rw off (h.0, All-update_where P p f keep xs h.1)
  ]
