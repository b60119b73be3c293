-- ===== src/Keys/Depth.antt =====
-- Following a key without discovering a cycle, and chains of aliases that end.
use soulmate.Prelude.{
  ℕ, zero, suc, ◌<◌, String, ◌≡◌, refl, sym, ap, subst, ◌∙◌, false, none, some, List, [], ◌∷◌,
  text_in, eq_iff, ◌⊎◌, inl, inr, Bool-cases, All, ◌==◌, arith, some_inj, none-ne-some, length,
}
use soulmate.Exec.{ok, err}
use soulmate.Float.{ℤ, pos}
use soulmate.Keys.Records.{times_int}
use soulmate.Keys.Aliases.{
  Identity, ResolvedKey, Entry, out_of_fuel, lookup, at_key, follow_loop, follow,
}
use soulmate.Keys.Follow.{Leads, stop, hop}
use soulmate.Keys.Fuel.{follow_ends}

module _ (direct : List Entry) (i : Identity) where
  -- The chain of aliases from this key ends after so many steps.
  pub data Depth : String → ℕ → Type 0 where
    bottom : {k : String} → lookup (at_key i k) direct ≡ none → Depth k 0
    above :
        {k : String} {r : ResolvedKey} {n : ℕ}
        → lookup (at_key i k) direct ≡ some r
        → Depth r.key n
        → Depth k (suc n)

-- A visited key lies deeper than this.
abbrev Deeper : List Entry → Identity → ℕ → String → Type 0
Deeper direct i n k = (m : ℕ) × Depth direct i k m × (n < m)

All-Deeper :
    (direct : List Entry) (i : Identity) (n : ℕ) (visited : List String)
    → All (Deeper direct i (suc n)) visited
    → All (Deeper direct i n) visited
All-Deeper direct i n [] h = tt
All-Deeper direct i n (v ∷ visited) ((m, deep, less), h) =
    ((m, deep, omega arith), All-Deeper direct i n visited h)

module _ {direct : List Entry} {i : Identity} where
  pub Leads-Depth : {k l : String} {p q : ℤ} → Leads direct i k p l q → (n : ℕ) × Depth direct i k n
  Leads-Depth (stop h) = (0, bottom h)
  Leads-Depth (hop h rest) = let (n, d) = Leads-Depth rest in (suc n, above h d)

  Depth-unique : {k : String} {n m : ℕ} → Depth direct i k n → Depth direct i k m → n ≡ m
  Depth-unique (bottom h) (bottom g) = refl
  Depth-unique (bottom h) (above g e) = absurd (none-ne-some (sym h ∙ g))
  Depth-unique (above h d) (bottom g) = absurd (none-ne-some (sym g ∙ h))
  Depth-unique (above {n = n} h d) (above {n = m} g e) = ap suc (
      Depth-unique d (subst (λ (r : ResolvedKey). Depth direct i r.key m) (some_inj (sym g ∙ h)) e))

  Deeper-fresh :
      (k : String) (n : ℕ) (visited : List String)
      → Depth direct i k n
      → All (Deeper direct i n) visited
      → text_in k visited ≡ false
  Deeper-fresh k n [] d h = refl
  Deeper-fresh k n (v ∷ visited) d ((m, deep, less), h) = elim (Bool-cases (v == k)) [
    | inr other ↦ rw (other, Deeper-fresh k n visited d h) refl
    | inl same ↦
        let depth = subst (λ x. Depth direct i x m) ((eq_iff v k).0 same) deep in
        absurd (omega (arith, Depth-unique d depth))
  ]

  loop_finds_end :
      (fuel : ℕ) (k : String) (n : ℕ) (p : ℤ) (visited : List String)
      → Depth direct i k n
      → All (Deeper direct i n) visited
      → ((r : ResolvedKey) × (follow_loop fuel direct i k p (k ∷ visited) ≡ ok r))
        ⊎ (follow_loop fuel direct i k p (k ∷ visited) ≡ err out_of_fuel)
  unfolding follow_loop
  loop_finds_end zero k n p visited d h = inr refl
  loop_finds_end (suc fuel) k zero p visited (bottom end) h =
      inl (record { key = k; polarity = p }, rw end refl)
  loop_finds_end (suc fuel) k (suc n) p visited (above {r = r} more d) h =
      let seen : Deeper direct i n k = (suc n, above more d, omega arith) in
      let fresh = Deeper-fresh r.key n (k ∷ visited) d (seen, All-Deeper direct i n visited h) in
      rw (more, fresh)
        (loop_finds_end fuel r.key n (times_int p r.polarity) (k ∷ visited) d
          (seen, All-Deeper direct i n visited h))

  -- Where the chain of aliases ends, following it returns a key.
  pub follow-Depth : {n : ℕ} → Depth direct i i.key n → (r : ResolvedKey) × (follow direct i ≡ ok r)
  unfolding follow
  follow-Depth {n = n} d = elim (loop_finds_end (suc (length direct)) i.key n (pos 1) [] d tt) [
    | inl found ↦ found
    | inr stuck ↦ absurd (follow_ends direct i stuck)
  ]

-- Fewer aliases: each lookup under this identity finds nothing or the same.
unfoldable pub Restricts : Identity → List Entry → List Entry → Type 0
Restricts i fewer direct =
    (k : String)
    → (lookup (at_key i k) fewer ≡ none) ⊎ (lookup (at_key i k) fewer ≡ lookup (at_key i k) direct)

-- With fewer aliases the chains still end.
pub Restricts-Depth :
    {i : Identity} {fewer direct : List Entry} {k : String} {n : ℕ}
    → Restricts i fewer direct
    → Depth direct i k n
    → (m : ℕ) × Depth fewer i k m
unfolding Restricts
Restricts-Depth {k = k} sub (bottom h) = elim (sub k) [
  | inl gone ↦ (0, bottom gone)
  | inr kept ↦ (0, bottom (kept ∙ h))
]
Restricts-Depth {k = k} sub (above h d) = elim (sub k) [
  | inl gone ↦ (0, bottom gone)
  | inr kept ↦ let (m, e) = Restricts-Depth sub d in (suc m, above (kept ∙ h) e)
]
