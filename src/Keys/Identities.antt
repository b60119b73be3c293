-- ===== src/Keys/Identities.antt =====
-- The identity of a key: the test of it, and its use as the primary key of the aliases.
use soulmate.Prelude.{
  ◌≡◌, refl, sym, subst, true, false, eq_iff, eqb, eqb_iff, arith, inl, inr, Bool-cases, ◌⊎◌,
}
use soulmate.Keys.Records.{
  EvidenceTargetType, fact, preference, goal, constraint, target_type_index,
}
use soulmate.Keys.Aliases.{Identity, eq_identity}

pub target_type_path :
    (a b : EvidenceTargetType) → eqb (target_type_index a) (target_type_index b) ≡ true → a ≡ b
target_type_path fact fact h = refl
target_type_path preference preference h = refl
target_type_path goal goal h = refl
target_type_path constraint constraint h = refl
target_type_path a b h = absurd (cc h)

pub eq_identity-path : (a b : Identity) → eq_identity a b ≡ true → a ≡ b
eq_identity-path a b h =
    let profile : a.profile_id ≡ b.profile_id =
      (eq_iff a.profile_id b.profile_id).0 (ground arith) in
    let kind : a.target_type ≡ b.target_type =
      target_type_path a.target_type b.target_type (ground arith) in
    let key : a.key ≡ b.key = (eq_iff a.key b.key).0 (ground arith) in
    λ j. record { profile_id = profile j; target_type = kind j; key = key j }

pub eq_identity_refl : (a : Identity) → eq_identity a a ≡ true
eq_identity_refl a =
    let kind =
      (eqb_iff (target_type_index a.target_type) (target_type_index a.target_type)).1 refl in
    rw ((eq_iff a.profile_id a.profile_id).1 refl, (eq_iff a.key a.key).1 refl, kind) refl

pub identity-cases : (a b : Identity) → (a ≡ b) ⊎ (eq_identity a b ≡ false)
identity-cases a b = elim (Bool-cases (eq_identity a b)) [
  | inl same ↦ inl (eq_identity-path a b same)
  | inr other ↦ inr other
]

-- Another test of one identity fails at the keys of another.
pub eq_identity-false :
    (a b c : Identity) → eq_identity a b ≡ true → eq_identity b c ≡ false → eq_identity a c ≡ false
eq_identity-false a b c same other =
    subst (λ x. eq_identity x c ≡ false) (sym (eq_identity-path a b same)) other

pub eq_identity_comm_false : (a b : Identity) → eq_identity a b ≡ false → eq_identity b a ≡ false
eq_identity_comm_false a b other = elim (Bool-cases (eq_identity b a)) [
  | inr off ↦ off
  | inl on ↦ absurd (
      cc (
        subst (λ x. eq_identity x b ≡ false) (sym (eq_identity-path b a on)) other,
        eq_identity_refl b,
      ))
]
