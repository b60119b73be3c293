-- ===== src/Keys/Closure.antt =====
-- The loop of `_supported_keys` returns the keys that active aliases lead to from the keys of the
-- evidence.
use soulmate.Prelude.{
  ℕ, zero, suc, ◌≤◌, ◌<◌, String, ◌≡◌, refl, subst, ◌↔◌, Bool, true, false, not, ◌&&◌, List, [],
  ◌∷◌, length, inl, inr, Bool-cases, Member, at_head, in_tail, arith, if◌then◌else◌, false≢true,
}
use soulmate.Exec.{ok}
use soulmate.Keys.Records.{TargetKeyAlias}
use soulmate.Keys.Store.{KeyStore}
use soulmate.Keys.Supported.{
  TypedKey, typed_in, alias_of, canonical_of, pass, grow, supported_keys, evidence_keys,
  active_aliases,
}
use soulmate.Keys.Passes.{
  Supported, used, carried, eq_typed_refl, Sound, pass-Sound, Extends, pass-Extends, idle_pass,
}

module _ (active : List TargetKeyAlias) where
  -- The rows whose canonical key has not been found.
  abbrev missing : List TargetKeyAlias → List TypedKey → ℕ
  missing [] keys = 0
  missing (row ∷ rows) keys =
      let rest = missing rows keys in if typed_in (canonical_of row) keys then rest else suc rest

  missing_le_length :
      (rows : List TargetKeyAlias) (keys : List TypedKey) → missing rows keys ≤ length rows
  missing_le_length [] keys = ground arith
  missing_le_length (row ∷ rows) keys = ground (arith, missing_le_length rows keys)

  missing_le :
      (rows : List TargetKeyAlias) (c : TypedKey) (keys : List TypedKey)
      → missing rows (c ∷ keys) ≤ missing rows keys
  missing_le [] c keys = ground arith
  missing_le (row ∷ rows) c keys = ground (arith, missing_le rows c keys)

  missing_drops :
      (rows : List TargetKeyAlias) (r : TargetKeyAlias) (keys : List TypedKey)
      → Member r rows
      → typed_in (canonical_of r) keys ≡ false
      → missing rows (canonical_of r ∷ keys) < missing rows keys
  missing_drops [] r keys m new = elim m [ ]
  missing_drops (row ∷ rows) r keys (at_head e) new =
      subst (λ x. missing (x ∷ rows) (canonical_of r ∷ keys) < missing (x ∷ rows) keys) e
        (rw (new, eq_typed_refl (canonical_of r))
          (ground (arith, missing_le rows (canonical_of r) keys)))
  missing_drops (row ∷ rows) r keys (in_tail m) new =
      ground (arith, missing_drops rows r keys m new)

  Within : List TargetKeyAlias → Type 0
  Within rows = (r : TargetKeyAlias) → Member r rows → Member r active

  pass_shrinks :
      (rows : List TargetKeyAlias) (keys : List TypedKey) (grown : Bool)
      → Within rows
      → missing active (pass rows (keys, grown)).0 ≤ missing active keys
  unfolding pass Within
  pass_shrinks [] keys grown sub = ground arith
  pass_shrinks (row ∷ rows) keys grown sub =
      elim (Bool-cases (typed_in (alias_of row) keys && not (typed_in (canonical_of row) keys))) [
        | inr off ↦ rw (off, pass) (pass_shrinks rows keys grown (λ r m. sub r (in_tail m)))
        | inl on ↦
            let below =
              pass_shrinks rows (canonical_of row ∷ keys) true (λ r m. sub r (in_tail m)) in
            let less = missing_drops active row keys (sub row (at_head refl)) (ground arith) in
            rw (on, pass) (omega arith)
      ]

  -- A pass that adds a key leaves fewer rows to carry.
  pass_drops :
      (rows : List TargetKeyAlias) (keys : List TypedKey)
      → Within rows
      → (pass rows (keys, false)).1 ≡ true
      → missing active (pass rows (keys, false)).0 < missing active keys
  unfolding pass Within
  pass_drops [] keys sub h = absurd (false≢true h)
  pass_drops (row ∷ rows) keys sub h =
      elim (Bool-cases (typed_in (alias_of row) keys && not (typed_in (canonical_of row) keys))) [
        | inr off ↦
            rw (off, pass) (pass_drops rows keys (λ r m. sub r (in_tail m)) (rw (off, pass) at h))
        | inl on ↦
            let below =
              pass_shrinks rows (canonical_of row ∷ keys) true (λ r m. sub r (in_tail m)) in
            let less = missing_drops active row keys (sub row (at_head refl)) (ground arith) in
            rw (on, pass) (omega arith)
      ]

  -- What the loop returns from a set of keys.
  record Grown (base start keys : List TypedKey) : Type 0 where
    sound : Sound base active keys
    kept : Extends start keys
    closed :
        (row : TargetKeyAlias)
        → Member row active
        → typed_in (alias_of row) keys ≡ true
        → typed_in (canonical_of row) keys ≡ true

  grows :
      (n : ℕ) (base start : List TypedKey)
      → Sound base active start
      → missing active start < n
      → (keys : List TypedKey) × (grow n active start ≡ ok keys) × Grown base start keys
  unfolding grow Within Extends
  grows zero base start s less = absurd (omega arith)
  grows (suc n) base start s less = elim (Bool-cases (pass active (start, false)).1) [
    | inr idle ↦
        let (same, closed) = idle_pass active start idle in
        (start, rw (idle, same) refl, record { sound = s; kept = λ k h. h; closed = closed })
    | inl grown ↦
        let next = (pass active (start, false)).0 in
        let s' = pass-Sound base active active start false (λ r m. m) s in
        let drops = pass_drops active start (λ r m. m) grown in
        let (keys, done, found) = grows n base next s' (omega arith) in
        (
          keys,
          rw grown done,
          record {
            sound = found.sound;
            kept = λ k h. found.kept k (pass-Extends active start false k h);
            closed = found.closed;
          },
        )
  ]

closed-full :
    (base : List TypedKey) (active : List TargetKeyAlias) (keys : List TypedKey)
    → Grown active base base keys
    → (k : TypedKey) → Supported base active k
    → typed_in k keys ≡ true
unfolding Extends
closed-full base active keys g k (used h) = g.kept k h
closed-full base active keys g k (carried row m e sup) =
    subst (λ x. typed_in x keys ≡ true) e (g.closed row m (closed-full base active keys g _ sup))

-- For each profile the loop of `_supported_keys` ends, and it returns exactly the keys of the
-- profile's evidence and those that chains of its active aliases carry them onto.
pub supported_keys_iff :
    (profile_id : String) (s : KeyStore)
    → (keys : List TypedKey) × (supported_keys profile_id s ≡ ok keys)
      × ((k : TypedKey)
          → (typed_in k keys ≡ true)
            ↔ Supported (evidence_keys profile_id s) (active_aliases profile_id s.aliases) k)
unfolding supported_keys Sound
supported_keys_iff profile_id s =
    let base = evidence_keys profile_id s in
    let active = active_aliases profile_id s.aliases in
    let bound = missing_le_length active active base in
    let (keys, done, found) =
      grows active (suc (length active)) base base (λ k h. used h) (omega arith) in
    (keys, done, λ k. (found.sound k, closed-full base active keys found k))
