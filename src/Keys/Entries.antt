-- ===== src/Keys/Entries.antt =====
-- The entries that a table of aliases gives `KeyAliasMap`: where the table has one row for each
-- identity, its active rows in their order, none of which conflict.
use soulmate.Prelude.{
  ◌≡◌, refl, sym, ap, ◌∙◌, Bool, false, ◌&&◌, none, List, [], ◌∷◌, ◌++◌, any, find, map_option, inl,
  inr, Bool-cases, All, if◌then◌else◌, arith,
}
use soulmate.Exec.{ok}
use soulmate.Keys.Records.{TargetKeyAlias, is_active}
use soulmate.Keys.Aliases.{Identity, Entry, eq_identity, identity_of, resolved_of, lookup, collect}
use soulmate.Keys.Store.{at_identity}
use soulmate.Keys.Identities.{eq_identity_comm_false}

-- No two rows have the same identity: the primary key of the table.
unfoldable pub Unique : List TargetKeyAlias → Type 0
Unique [] = Unit
Unique (a ∷ rows) = (any (at_identity (identity_of a)) rows ≡ false) × Unique rows

abbrev entry_of : TargetKeyAlias → Entry
entry_of a = (identity_of a, resolved_of a)

abbrev pub entries : List TargetKeyAlias → List Entry
entries [] = []
entries (a ∷ rows) =
    let rest = entries rows in if is_active a.status then entry_of a ∷ rest else rest

abbrev pub active_at : Identity → TargetKeyAlias → Bool
active_at i a = is_active a.status && eq_identity (identity_of a) i

pub lookup-entries :
    (i : Identity) (rows : List TargetKeyAlias)
    → lookup i (entries rows) ≡ map_option resolved_of (find (active_at i) rows)
unfolding lookup find
lookup-entries i [] = refl
lookup-entries i (a ∷ rows) = elim (Bool-cases (is_active a.status)) [
  | inr off ↦ rw off (lookup-entries i rows)
  | inl on ↦ elim (Bool-cases (eq_identity (identity_of a) i)) [
    | inl here ↦ rw (on, here) refl
    | inr there ↦ rw (on, there) (lookup-entries i rows)
  ]
]

lookup-append :
    (i : Identity) (xs : List Entry) (e : Entry)
    → lookup i xs ≡ none
    → eq_identity e.0 i ≡ false
    → lookup i (xs ++ e ∷ []) ≡ none
unfolding lookup
lookup-append i [] e h other = rw other refl
lookup-append i (x ∷ xs) e h other = ground (arith, lookup-append i xs e)

-- No row is among the entries so far.
Fresh : List Entry → List TargetKeyAlias → Type 0
Fresh acc = All (λ b. lookup (identity_of b) acc ≡ none)

Fresh-after :
    (acc : List Entry) (a : TargetKeyAlias) (rows : List TargetKeyAlias)
    → Fresh acc rows
    → any (at_identity (identity_of a)) rows ≡ false
    → Fresh (acc ++ entry_of a ∷ []) rows
unfolding Fresh
Fresh-after acc a [] f h = tt
Fresh-after acc a (b ∷ rows) (new, f) h =
    elim (Bool-cases (eq_identity (identity_of b) (identity_of a))) [
      | inl same ↦ absurd (cc (rw same at h))
      | inr other ↦ (
        lookup-append (identity_of b) acc (entry_of a) new
            (eq_identity_comm_false (identity_of b) (identity_of a) other),
        Fresh-after acc a rows f (rw other at h),
      )
    ]

append_assoc : (xs : List Entry) (e : Entry) (ys : List Entry) → (xs ++ e ∷ []) ++ ys ≡ xs ++ e ∷ ys
append_assoc [] e ys = refl
append_assoc (x ∷ xs) e ys = ap (λ zs. x ∷ zs) (append_assoc xs e ys)

append_nil : (xs : List Entry) → xs ++ [] ≡ xs
append_nil [] = refl
append_nil (x ∷ xs) = ap (λ zs. x ∷ zs) (append_nil xs)

collects :
    (rows : List TargetKeyAlias) (acc : List Entry)
    → Unique rows
    → Fresh acc rows
    → collect rows acc ≡ ok (acc ++ entries rows)
unfolding collect Unique Fresh
collects [] acc u f = ap ok (sym (append_nil acc))
collects (a ∷ rows) acc (alone, u) (new, f) = elim (Bool-cases (is_active a.status)) [
  | inr off ↦ rw off (collects rows acc u f)
  | inl on ↦
      rw (on, new)
        (collects rows (acc ++ entry_of a ∷ []) u (Fresh-after acc a rows f alone)
          ∙ ap ok (append_assoc acc (entry_of a) (entries rows)))
]

Fresh-nil : (rows : List TargetKeyAlias) → Fresh [] rows
unfolding Fresh lookup
Fresh-nil [] = tt
Fresh-nil (a ∷ rows) = (refl, Fresh-nil rows)

pub collect-entries :
    (rows : List TargetKeyAlias) → Unique rows → collect rows [] ≡ ok (entries rows)
collect-entries rows u = collects rows [] u (Fresh-nil rows)
