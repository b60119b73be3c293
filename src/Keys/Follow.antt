-- ===== src/Keys/Follow.antt =====
-- What following the aliases of a key returns: the end of the chain that starts there.
use soulmate.Prelude.{
  ℕ, zero, suc, String, ◌≡◌, sym, subst, none, some, List, [], ◌∷◌, text_in, inl, inr, Bool-cases,
  Option-cases, length,
}
use soulmate.Exec.{ok, ok_inj, ok-ne-err}
use soulmate.Float.{ℤ, pos}
use soulmate.Keys.Records.{times_int}
use soulmate.Keys.Aliases.{Identity, ResolvedKey, Entry, lookup, at_key, follow_loop, follow}

-- A chain of aliases from a key, with a sign so far, to a key that is no alias, with its sign.
pub data Leads (direct : List Entry) (i : Identity) : String → ℤ → String → ℤ → Type 0 where
  stop : {k : String} {p : ℤ} → lookup (at_key i k) direct ≡ none → Leads direct i k p k p
  hop :
      {k l : String} {p q : ℤ} {r : ResolvedKey}
      → lookup (at_key i k) direct ≡ some r
      → Leads direct i r.key (times_int p r.polarity) l q
      → Leads direct i k p l q

Leads-final :
    {direct : List Entry} {i : Identity} {k l : String} {p q : ℤ}
    → Leads direct i k p l q
    → lookup (at_key i l) direct ≡ none
Leads-final (stop h) = h
Leads-final (hop h rest) = Leads-final rest

follow_loop-Leads :
    (n : ℕ) (direct : List Entry) (i : Identity) (k : String) (p : ℤ) (seen : List String)
    (r : ResolvedKey)
    → follow_loop n direct i k p seen ≡ ok r
    → Leads direct i k p r.key r.polarity
unfolding follow_loop
follow_loop-Leads zero direct i k p seen r h = absurd (ok-ne-err (sym h))
follow_loop-Leads (suc n) direct i k p seen r h = elim (Option-cases (lookup (at_key i k) direct)) [
  | inl end ↦
      subst (λ (x : ResolvedKey). Leads direct i k p x.key x.polarity) (ok_inj (rw end at h))
        (stop end)
  | inr (s, more) ↦ elim (Bool-cases (text_in s.key seen)) [
    | inl twice ↦ absurd (ok-ne-err (sym (rw (more, twice) at h)))
    | inr new ↦ hop more (
        follow_loop-Leads n direct i s.key (times_int p s.polarity) (s.key ∷ seen) r
          (rw (more, new) at h))
  ]
]

-- Where following a key returns, it returns the key at the end of the chain of aliases that starts
-- there, which is no alias itself, and the product of the signs on the way.
pub follow-Leads :
    (direct : List Entry) (i : Identity) (r : ResolvedKey)
    → follow direct i ≡ ok r
    → Leads direct i i.key (pos 1) r.key r.polarity × (lookup (at_key i r.key) direct ≡ none)
unfolding follow
follow-Leads direct i r h =
    let chain = follow_loop-Leads (suc (length direct)) direct i i.key (pos 1) (i.key ∷ []) r h in
    (chain, Leads-final chain)
