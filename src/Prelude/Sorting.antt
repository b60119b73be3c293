-- ===== src/Prelude/Sorting.antt =====
-- What a filter and a sort return stands in the list they are given.
use mathlib.Core.Path.{◌≡◌, refl, subst, sym, ap, ◌∙◌}
use mathlib.Core.Bool.{Bool, true, false}
use mathlib.Core.Logic.{◌⊎◌, inl, inr}
use mathlib.Core.List.{List, [], ◌∷◌}
use native.Mathlib.Omega.{arith}
use soulmate.Prelude.Tests.{Bool-cases}
use soulmate.Prelude.Lists.{insert_by, sort_by, filter, All, any}
use soulmate.Prelude.Tables.{delete_where}

-- A position of an element in a list.
pub data Member {ℓ} {A : Type ℓ} (z : A) : List A → Type ℓ where
  at_head : {x : A} {xs : List A} → z ≡ x → Member z (x ∷ xs)
  in_tail : {x : A} {xs : List A} → Member z xs → Member z (x ∷ xs)

module _ {ℓ} {A : Type ℓ} where
  Member-cases : {z x : A} {xs : List A} → Member z (x ∷ xs) → (z ≡ x) ⊎ Member z xs
  Member-cases (at_head e) = inl e
  Member-cases (in_tail m) = inr m

  mem-insert_by :
      (ahead : A → A → Bool) (x : A) (ys : List A) (z : A)
      → Member z (insert_by ahead x ys)
      → (z ≡ x) ⊎ Member z ys
  unfolding insert_by
  mem-insert_by ahead x [] z m = Member-cases m
  mem-insert_by ahead x (y ∷ ys) z m = elim (Bool-cases (ahead x y)) [
    | inl first ↦ Member-cases (rw first at m)
    | inr second ↦ elim (Member-cases (rw second at m)) [
      | inl e ↦ inr (at_head e)
      | inr later ↦ elim (mem-insert_by ahead x ys z later) [
        | inl e ↦ inl e
        | inr old ↦ inr (in_tail old)
      ]
    ]
  ]

  pub mem-sort_by :
      (ahead : A → A → Bool) (xs : List A) (z : A) → Member z (sort_by ahead xs) → Member z xs
  unfolding sort_by
  mem-sort_by ahead [] z m = m
  mem-sort_by ahead (x ∷ xs) z m = elim (mem-insert_by ahead x (sort_by ahead xs) z m) [
    | inl e ↦ at_head e
    | inr later ↦ in_tail (mem-sort_by ahead xs z later)
  ]

  pub mem-filter :
      (p : A → Bool) (xs : List A) (z : A) → Member z (filter p xs) → Member z xs × (p z ≡ true)
  unfolding filter
  mem-filter p [] z m = elim m [ ]
  mem-filter p (x ∷ xs) z m = elim (Bool-cases (p x)) [
    | inl on ↦ elim (Member-cases (rw on at m)) [
      | inl e ↦ (at_head e, ap p e ∙ on)
      | inr later ↦ let (old, test) = mem-filter p xs z later in (in_tail old, test)
    ]
    | inr off ↦ let (old, test) = mem-filter p xs z (rw off at m) in (in_tail old, test)
  ]

-- What holds of every element holds of one that stands in the list.
pub All-Member {ℓ κ} :
    {A : Type ℓ} (P : A → Type κ) (xs : List A) (z : A) → All P xs → Member z xs → P z
All-Member P [] z h m = elim m [ ]
All-Member P (x ∷ xs) z h (at_head e) = subst P (sym e) h.0
All-Member P (x ∷ xs) z h (in_tail m) = All-Member P xs z h.1 m

module _ {ℓ} {A : Type ℓ} where
  pub filter-keeps :
      (p : A → Bool) (xs : List A) (z : A) → Member z xs → p z ≡ true → Member z (filter p xs)
  unfolding filter
  filter-keeps p [] z m on = elim m [ ]
  filter-keeps p (x ∷ xs) z (at_head e) on = rw (ap p (sym e) ∙ on) (at_head e)
  filter-keeps p (x ∷ xs) z (in_tail m) on = elim (Bool-cases (p x)) [
    | inl kept ↦ rw kept (in_tail (filter-keeps p xs z m on))
    | inr gone ↦ rw gone (filter-keeps p xs z m on)
  ]

  pub delete_where-keeps :
      (p : A → Bool) (xs : List A) (z : A)
      → Member z xs
      → p z ≡ false
      → Member z (delete_where p xs)
  unfolding delete_where
  delete_where-keeps p [] z m off = elim m [ ]
  delete_where-keeps p (x ∷ xs) z (at_head e) off = rw (ap p (sym e) ∙ off) (at_head e)
  delete_where-keeps p (x ∷ xs) z (in_tail m) off = elim (Bool-cases (p x)) [
    | inl gone ↦ rw gone (delete_where-keeps p xs z m off)
    | inr kept ↦ rw kept (in_tail (delete_where-keeps p xs z m off))
  ]

  pub mem-delete_where :
      (p : A → Bool) (xs : List A) (z : A)
      → Member z (delete_where p xs)
      → Member z xs × (p z ≡ false)
  unfolding delete_where
  mem-delete_where p [] z m = elim m [ ]
  mem-delete_where p (x ∷ xs) z m = elim (Bool-cases (p x)) [
    | inl gone ↦ let (old, test) = mem-delete_where p xs z (rw gone at m) in (in_tail old, test)
    | inr kept ↦ elim (Member-cases (rw kept at m)) [
      | inl e ↦ (at_head e, ap p e ∙ kept)
      | inr later ↦ let (old, test) = mem-delete_where p xs z later in (in_tail old, test)
    ]
  ]

  -- A second DELETE with the same test deletes nothing.
  pub delete_where-again :
      (p q : A → Bool)
      → ((x : A) → q x ≡ p x)
      → (xs : List A) → delete_where q (delete_where p xs) ≡ delete_where p xs
  unfolding delete_where
  delete_where-again p q same [] = refl
  delete_where-again p q same (x ∷ xs) = elim (Bool-cases (p x)) [
    | inl gone ↦ rw gone (delete_where-again p q same xs)
    | inr kept ↦ rw kept (rw (same x, kept) (ap (λ ys. x ∷ ys) (delete_where-again p q same xs)))
  ]

  -- After a DELETE no row passes its test, nor one that no row passed before.
  pub any-delete_where : (p : A → Bool) (xs : List A) → any p (delete_where p xs) ≡ false
  unfolding delete_where
  any-delete_where p [] = refl
  any-delete_where p (x ∷ xs) = ground (arith, any-delete_where p xs)

  pub misses-delete_where :
      (p q : A → Bool) (xs : List A) → any p xs ≡ false → any p (delete_where q xs) ≡ false
  unfolding delete_where
  misses-delete_where p q [] h = refl
  misses-delete_where p q (x ∷ xs) h = ground (arith, misses-delete_where p q xs)

  -- A row that a stronger test passes is deleted too.
  pub stronger-delete_where :
      (p q : A → Bool)
      → ((x : A) → p x ≡ true → q x ≡ true)
      → (xs : List A) → any p (delete_where q xs) ≡ false
  unfolding delete_where
  stronger-delete_where p q sub [] = refl
  stronger-delete_where p q sub (x ∷ xs) = ground (arith, sub x, stronger-delete_where p q sub xs)
