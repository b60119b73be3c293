-- ===== src/Exec.antt =====
-- Python methods as actions: a method may write to the store and may raise. What was written
-- before a raise stays written (each repository call commits its own transaction), so the store
-- comes back beside the error too.
use soulmate.Prelude.{◌≡◌, ◌≢◌, ◌⊎◌, inl, inr, refl, sym, ap, Bool, true, false, Option, none, some}

pub data Result {ℓ κ} (E : Type ℓ) (A : Type κ) : Type (ℓ ⊔ κ) where
  ok : A → Result E A
  err : E → Result E A

pub Result-cases {ℓ κ} :
    {E : Type ℓ} {A : Type κ} (r : Result E A) → ((e : E) × (r ≡ err e)) ⊎ ((a : A) × (r ≡ ok a))
Result-cases (err e) = inl (e, refl)
Result-cases (ok a) = inr (a, refl)

pub ok_inj {ℓ κ} : {E : Type ℓ} {A : Type κ} {a b : A} → ◌≡◌ {A = Result E A} (ok a) (ok b) → a ≡ b
ok_inj {a = a} h = ap (λ r. elim r [ ok x ↦ x | err e ↦ a ]) h

pub ok-ne-err {ℓ κ} : {E : Type ℓ} {A : Type κ} {a : A} {e : E} → ok a ≢ err e
ok-ne-err h = cc

abbrev pub Exec {ℓ} : Type ℓ → Type ℓ → Type ℓ → Type ℓ
Exec E S A = S → Result E A × S

module _ {ℓ} {E S A : Type ℓ} where
  abbrev pub pure : A → Exec E S A
  pure a s = (ok a, s)

  abbrev pub raise : E → Exec E S A
  raise e s = (err e, s)

  abbrev pub gets : (S → A) → Exec E S A
  gets f s = (ok (f s), s)

  -- a pure function that may raise
  abbrev pub lift : Result E A → Exec E S A
  lift r s = (r, s)

  -- a value that may be missing
  abbrev pub or_raise : Option A → E → Exec E S A
  or_raise none e s = (err e, s)
  or_raise (some a) e s = (ok a, s)

-- the rest of a method, after a part that ended with this result
abbrev pub continue {ℓ} : {E S A B : Type ℓ} → Result E A → (A → Exec E S B) → Exec E S B
continue (ok a) f s = f a s
continue (err e) f s = (err e, s)

infixl 5 ◌>>=◌ ◌>>◌
abbrev pub ◌>>=◌ {ℓ} : {E S A B : Type ℓ} → Exec E S A → (A → Exec E S B) → Exec E S B
◌>>=◌ m f s = let (r, s') = m s in continue r f s'

abbrev pub ◌>>◌ {ℓ} : {E S A B : Type ℓ} → Exec E S A → Exec E S B → Exec E S B
m >> n = m >>= λ _. n

module _ {ℓ} {E S A B : Type ℓ} (m : Exec E S A) (f : A → Exec E S B) (s : S) where
  pub bind_of_ok : {a : A} → (m s).0 ≡ ok a → (m >>= f) s ≡ f a (m s).1
  bind_of_ok h = ap (λ r. continue r f (m s).1) h

  pub bind_of_err : {e : E} → (m s).0 ≡ err e → (m >>= f) s ≡ (err e, (m s).1)
  bind_of_err h = ap (λ r. continue r f (m s).1) h

-- `if b: raise e`
abbrev pub raise_if : {E S : Type 0} → Bool → E → Exec E S Unit
raise_if true e s = (err e, s)
raise_if false e s = (ok tt, s)

abbrev pub modify : {E S : Type 0} → (S → S) → Exec E S Unit
modify f s = (ok tt, f s)

-- The same for functions without a store.
abbrev pub bind {ℓ κ ι} :
    {E : Type ℓ} {A : Type κ} {B : Type ι} → Result E A → (A → Result E B) → Result E B
bind (ok a) f = f a
bind (err e) f = err e

abbrev pub reject_if {ℓ} : {E : Type ℓ} → Bool → E → Result E (Unit {0})
reject_if true e = err e
reject_if false e = ok tt

-- What comes after a test that rejects is reached only if the test fails.
pub passed :
    {E A : Type 0} {x : A} (e : E) (b : Bool) (f : Unit {0} → Result E A)
    → bind (reject_if b e) f ≡ ok x
    → (b ≡ false) × (f tt ≡ ok x)
passed e true f h = absurd (ok-ne-err (sym h))
passed e false f h = (refl, h)

-- What comes after a call is reached only if the call returns.
pub reached {ℓ κ ι} :
    {E : Type ℓ} {A : Type κ} {B : Type ι} {b : B} (r : Result E A) (f : A → Result E B)
    → bind r f ≡ ok b
    → (a : A) × (r ≡ ok a) × (f a ≡ ok b)
reached (err e) f h = absurd (ok-ne-err (sym h))
reached (ok a) f h = (a, refl, h)
