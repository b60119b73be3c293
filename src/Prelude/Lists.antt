-- ===== src/Prelude/Lists.antt =====
-- Lists measured by native numbers, `in` and predicates by recursion.
use Prim.Native.Nat.{ℕ, suc}
use mathlib.Core.Bool.{Bool, true, false, ◌||◌, ◌&&◌}
use mathlib.Core.List.{List, [], ◌∷◌, ◌++◌, map}
use text.Mathlib.Text.{◌==◌}
use Prim.Native.String.{String}
use soulmate.Prelude.Tests.{if◌then◌else◌}

module _ {ℓ} {A : Type ℓ} where
  abbrev pub length : List A → ℕ
  length [] = 0
  length (x ∷ xs) = suc (length xs)

  -- `any(p(x) for x in xs)`
  abbrev pub any : (A → Bool) → List A → Bool
  any p [] = false
  any p (x ∷ xs) = p x || any p xs

  -- `all(p(x) for x in xs)`
  abbrev pub all : (A → Bool) → List A → Bool
  all p [] = true
  all p (x ∷ xs) = p x && all p xs

module _ {ℓ κ} {A : Type ℓ} (P : A → Type κ) where
  abbrev pub All : List A → Type κ
  All [] = Unit
  All (x ∷ xs) = P x × All xs

  pub All-map : (g : A → A) (keep : (x : A) → P x → P (g x)) (xs : List A) → All xs → All (map g xs)
  All-map g keep [] h = tt
  All-map g keep (x ∷ xs) h = (keep x h.0, All-map g keep xs h.1)

  pub All-append : (xs ys : List A) → All xs → All ys → All (xs ++ ys)
  All-append [] ys h k = k
  All-append (x ∷ xs) ys h k = (h.0, All-append xs ys h.1 k)

-- `x in xs` on a sequence of texts
abbrev pub text_in : String → List String → Bool
text_in x xs = any (λ y. y == x) xs

-- `sorted` and ORDER BY: a stable sort by a test that says whether the first argument stays ahead.
module _ {ℓ} {A : Type ℓ} where
  unfoldable pub insert_by : (A → A → Bool) → A → List A → List A
  insert_by ahead x [] = x ∷ []
  insert_by ahead x (y ∷ ys) =
      let rest = insert_by ahead x ys in if ahead x y then x ∷ y ∷ ys else y ∷ rest

  unfoldable pub sort_by : (A → A → Bool) → List A → List A
  unfolding insert_by
  sort_by ahead [] = []
  sort_by ahead (x ∷ xs) = insert_by ahead x (sort_by ahead xs)

  unfoldable pub filter : (A → Bool) → List A → List A
  filter p [] = []
  filter p (x ∷ xs) = let rest = filter p xs in if p x then x ∷ rest else rest
