-- ===== src/Keys/Passes.antt =====
-- What a pass of the inner loop of `_supported_keys` does to the keys found so far.
use soulmate.Prelude.{
  ◌≡◌, refl, sym, subst, ◌∙◌, Bool, true, false, not, ◌&&◌, List, [], ◌∷◌, inl, inr, Bool-cases,
  Member, at_head, in_tail, arith, eq_iff, false≢true, eqb_iff,
}
use soulmate.Keys.Records.{TargetKeyAlias, target_type_index}
use soulmate.Keys.Identities.{target_type_path}
use soulmate.Keys.Supported.{TypedKey, eq_typed, typed_in, alias_of, canonical_of, pass}

-- A key of the base, or one that an active alias carries a supported key onto.
pub data Supported (base : List TypedKey) (active : List TargetKeyAlias) : TypedKey → Type 0 where
  used : {k : TypedKey} → typed_in k base ≡ true → Supported base active k
  carried :
      {k : TypedKey} (row : TargetKeyAlias)
      → Member row active
      → canonical_of row ≡ k
      → Supported base active (alias_of row)
      → Supported base active k

eq_typed-path : (j k : TypedKey) → eq_typed j k ≡ true → j ≡ k
eq_typed-path (a, x) (b, y) h =
    let kind : a ≡ b = target_type_path a b (ground arith) in
    let key : x ≡ y = (eq_iff x y).0 (ground arith) in λ i. (kind i, key i)

pub eq_typed_refl : (k : TypedKey) → eq_typed k k ≡ true
eq_typed_refl (a, x) =
    let kind = (eqb_iff (target_type_index a) (target_type_index a)).1 refl in
    rw (kind, (eq_iff x x).1 refl) refl

module _ (base : List TypedKey) (active : List TargetKeyAlias) where
  -- Only supported keys have been found.
  unfoldable pub Sound : List TypedKey → Type 0
  Sound keys = (k : TypedKey) → typed_in k keys ≡ true → Supported base active k

  pub pass-Sound :
      (rows : List TargetKeyAlias) (keys : List TypedKey) (grown : Bool)
      → ((row : TargetKeyAlias) → Member row rows → Member row active)
      → Sound keys
      → Sound (pass rows (keys, grown)).0
  unfolding pass Sound
  pass-Sound [] keys grown sub h = h
  pass-Sound (row ∷ rows) keys grown sub h =
      elim (Bool-cases (typed_in (alias_of row) keys && not (typed_in (canonical_of row) keys))) [
        | inr off ↦ rw (off, pass) (pass-Sound rows keys grown (λ r m. sub r (in_tail m)) h)
        | inl on ↦
            rw (on, pass)
              (pass-Sound rows (canonical_of row ∷ keys) true (λ r m. sub r (in_tail m))
                (λ k found. elim (Bool-cases (eq_typed (canonical_of row) k)) [
                  | inl same ↦
                      carried row (sub row (at_head refl)) (eq_typed-path (canonical_of row) k same)
                        (h (alias_of row) (ground arith))
                  | inr other ↦ h k (rw other at found)
                ]))
      ]

-- No key is lost.
unfoldable pub Extends : List TypedKey → List TypedKey → Type 0
Extends keys more = (k : TypedKey) → typed_in k keys ≡ true → typed_in k more ≡ true

pub pass-Extends :
    (rows : List TargetKeyAlias) (keys : List TypedKey) (grown : Bool)
    → Extends keys (pass rows (keys, grown)).0
unfolding pass Extends
pass-Extends [] keys grown k h = h
pass-Extends (row ∷ rows) keys grown k h =
    elim (Bool-cases (typed_in (alias_of row) keys && not (typed_in (canonical_of row) keys))) [
      | inr off ↦ rw (off, pass) (pass-Extends rows keys grown k h)
      | inl on ↦ rw (on, pass) (pass-Extends rows (canonical_of row ∷ keys) true k (ground arith))
    ]

stays_grown :
    (rows : List TargetKeyAlias) (keys : List TypedKey) → (pass rows (keys, true)).1 ≡ true
unfolding pass
stays_grown [] keys = refl
stays_grown (row ∷ rows) keys =
    elim (Bool-cases (typed_in (alias_of row) keys && not (typed_in (canonical_of row) keys))) [
      | inr off ↦ rw (off, pass) (stays_grown rows keys)
      | inl on ↦ rw (on, pass) (stays_grown rows (canonical_of row ∷ keys))
    ]

-- A pass that adds nothing leaves a set that each alias is closed in.
pub idle_pass :
    (rows : List TargetKeyAlias) (keys : List TypedKey)
    → (pass rows (keys, false)).1 ≡ false
    → ((pass rows (keys, false)).0 ≡ keys)
      × ((row : TargetKeyAlias)
          → Member row rows
          → typed_in (alias_of row) keys ≡ true
          → typed_in (canonical_of row) keys ≡ true)
unfolding pass
idle_pass [] keys idle = (refl, λ row m h. elim m [ ])
idle_pass (row ∷ rows) keys idle =
    elim (Bool-cases (typed_in (alias_of row) keys && not (typed_in (canonical_of row) keys))) [
      | inl on ↦
          absurd
            (false≢true (sym (rw (on, pass) at idle) ∙ stays_grown rows (canonical_of row ∷ keys)))
      | inr off ↦
          let (same, closed) = idle_pass rows keys (rw (off, pass) at idle) in
          (
            rw (off, pass) same,
            λ r m h. elim m [
              | at_head e ↦
                  subst (λ x. typed_in (canonical_of x) keys ≡ true) (sym e)
                    (let h' = subst (λ x. typed_in (alias_of x) keys ≡ true) e h in ground arith)
              | in_tail later ↦ closed r later h
            ],
          )
    ]
