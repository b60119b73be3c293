-- ===== src/Text/SortedSet.antt =====
-- Python's `sorted(set(xs))` on texts.
use soulmate.Prelude.{
  String, ◌≡◌, refl, ap, ◌∙◌, Bool, true, ◌||◌, ◌==◌, List, [], ◌∷◌, All, text_in, arith, inl, inr,
  Bool-cases, if◌then◌else◌,
}
use soulmate.Text.Order.{lt_text, lt_text_trans, lt_text_total}

unfoldable pub insert_once : String → List String → List String
insert_once x [] = x ∷ []
insert_once x (y ∷ ys) =
    let rest = insert_once x ys in
    if lt_text x y then x ∷ y ∷ ys else if lt_text y x then y ∷ rest else y ∷ ys

unfoldable pub sorted_set : List String → List String
sorted_set [] = []
sorted_set (x ∷ xs) = insert_once x (sorted_set xs)

abbrev Below : String → List String → Type 0
Below x ys = All (λ y. lt_text x y ≡ true) ys

-- Strictly increasing, hence without repetition.
abbrev pub Increasing : List String → Type 0
Increasing [] = Unit
Increasing (x ∷ xs) = Below x xs × Increasing xs

Below-trans : (x y : String) (zs : List String) → lt_text x y ≡ true → Below y zs → Below x zs
Below-trans x y [] h b = tt
Below-trans x y (z ∷ zs) h b = (lt_text_trans x y z h b.0, Below-trans x y zs h b.1)

insert_once-Below :
    (w x : String) (ys : List String) → lt_text w x ≡ true → Below w ys → Below w (insert_once x ys)
unfolding insert_once
insert_once-Below w x [] h b = (h, tt)
insert_once-Below w x (y ∷ ys) h b = elim (Bool-cases (lt_text x y)) [
  | inl lt ↦ rw lt (h, b)
  | inr ge ↦ elim (Bool-cases (lt_text y x)) [
    | inl gt ↦ rw (ge, gt) (b.0, insert_once-Below w x ys h b.1)
    | inr eq ↦ rw (ge, eq) b
  ]
]

insert_once-Increasing :
    (x : String) (ys : List String) → Increasing ys → Increasing (insert_once x ys)
unfolding insert_once
insert_once-Increasing x [] i = (tt, tt)
insert_once-Increasing x (y ∷ ys) i = elim (Bool-cases (lt_text x y)) [
  | inl lt ↦ rw lt ((lt, Below-trans x y ys lt i.0), i)
  | inr ge ↦ elim (Bool-cases (lt_text y x)) [
    | inl gt ↦ rw (ge, gt) (insert_once-Below y x ys gt i.0, insert_once-Increasing x ys i.1)
    | inr eq ↦ rw (ge, eq) i
  ]
]

pub sorted_set-Increasing : (xs : List String) → Increasing (sorted_set xs)
unfolding sorted_set
sorted_set-Increasing [] = tt
sorted_set-Increasing (x ∷ xs) = insert_once-Increasing x (sorted_set xs) (sorted_set-Increasing xs)

insert_once_first : (x : String) (ys : List String) → Below x ys → insert_once x ys ≡ x ∷ ys
unfolding insert_once
insert_once_first x [] b = refl
insert_once_first x (y ∷ ys) b = rw (b.0)

-- What is strictly increasing already stays as it is.
pub sorted_set_fixed : (xs : List String) → Increasing xs → sorted_set xs ≡ xs
unfolding sorted_set
sorted_set_fixed [] i = refl
sorted_set_fixed (x ∷ xs) i = rw (sorted_set_fixed xs i.1) (insert_once_first x xs i.0)

swap_or : (a b c : Bool) → (a || (b || c)) ≡ (b || (a || c))
swap_or a b c = ground arith

text_in-insert_once :
    (z x : String) (ys : List String) → text_in z (insert_once x ys) ≡ (x == z || text_in z ys)
unfolding insert_once
text_in-insert_once z x [] = refl
text_in-insert_once z x (y ∷ ys) = elim (Bool-cases (lt_text x y)) [
  | inl lt ↦ rw lt refl
  | inr ge ↦ elim (Bool-cases (lt_text y x)) [
    | inl gt ↦ rw (ge, gt, text_in-insert_once z x ys) (swap_or (y == z) (x == z) (text_in z ys))
    | inr eq ↦ rw (ge, eq, lt_text_total x y ge eq) (ground arith)
  ]
]

-- The members stay the same.
pub text_in-sorted_set : (z : String) (xs : List String) → text_in z (sorted_set xs) ≡ text_in z xs
unfolding sorted_set
text_in-sorted_set z [] = refl
text_in-sorted_set z (x ∷ xs) =
    text_in-insert_once z x (sorted_set xs) ∙ ap (λ b. x == z || b) (text_in-sorted_set z xs)
