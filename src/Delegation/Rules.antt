-- ===== src/Delegation/Rules.antt =====
-- The methods that change the store by atomic steps only, a rule for each way to build one.
use soulmate.Prelude.{◌≡◌, refl, Bool, true, false, Option, none, some, if◌then◌else◌}
use soulmate.Exec.{Result, ok, err, raise_if, lift, or_raise, continue, ◌>>=◌}
use soulmate.Delegation.Store.{Store, Error, Action}
use soulmate.Delegation.Trace.{Trace, start, Trace-trans}

abbrev pub Runs : {A : Type 0} → Action A → Type 0
Runs m = (s : Store) → Trace s (m s).1

module _ {A B : Type 0} where
  Runs-continue :
      (r : Result Error A) (f : A → Action B) {s t : Store}
      → Trace s t
      → ((a : A) → r ≡ ok a → Trace t (f a t).1)
      → Trace s (continue r f t).1
  Runs-continue (ok a) f p k = Trace-trans p (k a refl)
  Runs-continue (err e) f p k = p

  pub Runs-bind :
      (m : Action A) (f : A → Action B) → Runs m → ((a : A) → Runs (f a)) → Runs (m >>= f)
  Runs-bind m f km kf s = Runs-continue (m s).0 f (km s) (λ a e. kf a (m s).1)

module _ {B : Type 0} where
  pub Runs-guard :
      (b : Bool) (e : Error) (f : Unit → Action B)
      → (b ≡ false → Runs (f tt))
      → Runs (raise_if b e >>= f)
  Runs-guard true e f k s = start
  Runs-guard false e f k s = k refl s

  pub Runs-if :
      (b : Bool) (m n : Action B)
      → (b ≡ true → Runs m)
      → (b ≡ false → Runs n)
      → Runs (if b then m else n)
  Runs-if true m n km kn = km refl
  Runs-if false m n km kn = kn refl

  pub Runs-option : (o : Option B) (e : Error) → Runs (or_raise o e)
  Runs-option none e s = start
  Runs-option (some b) e s = start

pub Runs-raise_if : (b : Bool) (e : Error) → Runs (raise_if b e)
Runs-raise_if true e s = start
Runs-raise_if false e s = start

module _ {A B : Type 0} where
  pub Runs-need :
      (o : Option A) (e : Error) (f : A → Action B)
      → ((a : A) → Runs (f a))
      → Runs (or_raise o e >>= f)
  Runs-need none e f k s = start
  Runs-need (some a) e f k s = k a s

  pub Runs-lift :
      (r : Result Error A) (f : A → Action B) → ((a : A) → Runs (f a)) → Runs (lift r >>= f)
  Runs-lift (ok a) f k s = k a s
  Runs-lift (err e) f k s = start
