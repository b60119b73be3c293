-- ===== src/Keys/Prune.antt =====
-- What `prune_unsupported_keys` leaves.
use soulmate.Prelude.{
  String, ◌≡◌, refl, sym, ap, subst, ◌∙◌, ◌↔◌, Bool, true, false, List, ◌==◌, inl, inr, Bool-cases,
  Member, arith, filter-keeps, mem-filter, delete_where-keeps, mem-delete_where, delete_where-again,
}
use soulmate.Exec.{Result, ok}
use soulmate.Keys.Records.{TargetKeyAlias}
use soulmate.Keys.Aliases.{Error}
use soulmate.Keys.Store.{KeyStore}
use soulmate.Keys.Supported.{
  TypedKey, typed_in, alias_of, canonical_of, evidence_keys, active_aliases, alias_unsupported,
  label_unsupported, embedding_unsupported, pruned, prune_unsupported_keys,
}
use soulmate.Keys.Closure.{supported_keys_iff}
use soulmate.Keys.Passes.{Supported, used, carried}
use soulmate.Keys.Acyclic.{IsAcyclic}
use soulmate.Keys.Upsert.{delete-IsAcyclic}
use soulmate.Domain.Evidence.{TargetKeyLabel, TargetKeyEmbedding}

module _ (profile_id : String) (s : KeyStore) where
  abbrev IsSupported : TypedKey → Type 0
  IsSupported = Supported (evidence_keys profile_id s) (active_aliases profile_id s.aliases)

  abbrev keys : List TypedKey
  keys = (supported_keys_iff profile_id s).0

  abbrev after : KeyStore
  after = pruned profile_id keys s

  prunes : prune_unsupported_keys profile_id s ≡ (ok tt, after)
  unfolding prune_unsupported_keys
  prunes = rw (supported_keys_iff profile_id s).1 refl

  in_keys_iff : (k : TypedKey) → (typed_in k keys ≡ true) ↔ IsSupported k
  in_keys_iff = (supported_keys_iff profile_id s).2

  -- The aliases that carry support survive.
  alias_survives :
      (a : TargetKeyAlias)
      → Member a (active_aliases profile_id s.aliases)
      → typed_in (alias_of a) keys ≡ true
      → Member a (active_aliases profile_id after.aliases)
  unfolding active_aliases
  alias_survives a m sup =
      let (stored, on) = mem-filter _ s.aliases a m in
      filter-keeps _ after.aliases a
        (delete_where-keeps (alias_unsupported profile_id keys) s.aliases a stored
          (rw sup (ground arith)))
        on

  alias_was_there :
      (a : TargetKeyAlias)
      → Member a (active_aliases profile_id after.aliases)
      → Member a (active_aliases profile_id s.aliases)
  unfolding active_aliases
  alias_was_there a m =
      let (stored, on) = mem-filter _ after.aliases a m in
      filter-keeps _ s.aliases a
        (mem-delete_where (alias_unsupported profile_id keys) s.aliases a stored).0 on

  abbrev IsSupportedAfter : TypedKey → Type 0
  IsSupportedAfter =
      Supported (evidence_keys profile_id after) (active_aliases profile_id after.aliases)

  same_evidence : evidence_keys profile_id after ≡ evidence_keys profile_id s
  unfolding evidence_keys
  same_evidence = refl

  IsSupported-before : (k : TypedKey) → IsSupportedAfter k → IsSupported k
  IsSupported-before k (used h) = used (subst (λ base. typed_in k base ≡ true) same_evidence h)
  IsSupported-before k (carried row m e sup) =
      carried row (alias_was_there row m) e (IsSupported-before _ sup)

  supported_after : (k : TypedKey) → IsSupported k → IsSupportedAfter k
  supported_after k (used h) = used (subst (λ base. typed_in k base ≡ true) (sym same_evidence) h)
  supported_after k (carried row m e sup) =
      carried row (alias_survives row m ((in_keys_iff (alias_of row)).1 sup)) e
        (supported_after _ sup)

same_truth : (a b : Bool) → (a ≡ true → b ≡ true) → (b ≡ true → a ≡ true) → a ≡ b
same_truth true true f g = refl
same_truth false false f g = refl
same_truth true false f g = sym (f refl)
same_truth false true f g = g refl

module _ (profile_id : String) (s : KeyStore) where
  abbrev first : List TypedKey
  first = keys profile_id s

  abbrev second : List TypedKey
  second = keys profile_id (after profile_id s)

  same_keys : (k : TypedKey) → typed_in k second ≡ typed_in k first
  same_keys k =
      let (out, into) = in_keys_iff profile_id s k in
      let (out', into') = in_keys_iff profile_id (after profile_id s) k in
      same_truth (typed_in k second) (typed_in k first)
        (λ h. into (IsSupported-before profile_id s k (out' h)))
        (λ h. into' (supported_after profile_id s k (out h)))

  same_alias :
      (a : TargetKeyAlias)
      → alias_unsupported profile_id second a ≡ alias_unsupported profile_id first a
  same_alias a = rw (same_keys (alias_of a), same_keys (canonical_of a)) refl

  same_label :
      (l : TargetKeyLabel)
      → label_unsupported profile_id second l ≡ label_unsupported profile_id first l
  same_label l = rw (same_keys (l.target_type, l.key)) refl

  same_embedding :
      (e : TargetKeyEmbedding)
      → embedding_unsupported profile_id second e ≡ embedding_unsupported profile_id first e
  same_embedding e = rw (same_keys (e.target_type, e.key)) refl

  unchanged : pruned profile_id second (after profile_id s) ≡ after profile_id s
  unchanged =
      let a =
        delete_where-again (alias_unsupported profile_id first)
          (alias_unsupported profile_id second) same_alias s.aliases in
      let l =
        delete_where-again (label_unsupported profile_id first)
          (label_unsupported profile_id second) same_label s.catalog in
      let e =
        delete_where-again (embedding_unsupported profile_id first)
          (embedding_unsupported profile_id second) same_embedding s.embeddings in
      λ i. record (after profile_id s) { aliases = a i; catalog = l i; embeddings = e i }

-- Pruning the keys of a profile never fails, and a second pruning changes nothing.
pub prune_once :
    (profile_id : String) (s : KeyStore)
    → ((prune_unsupported_keys profile_id s).0 ≡ ok tt)
      × (prune_unsupported_keys profile_id (prune_unsupported_keys profile_id s).1
          ≡ (ok tt, (prune_unsupported_keys profile_id s).1))
prune_once profile_id s =
    let e = prunes profile_id s in
    (
      ap (λ (r : Result Error Unit × KeyStore). r.0) e,
      subst (λ (t : KeyStore). prune_unsupported_keys profile_id t ≡ (ok tt, t))
          (sym (ap (λ (r : Result Error Unit × KeyStore). r.1) e))
          (prunes profile_id (after profile_id s) ∙ ap (λ t. (ok tt, t)) (unchanged profile_id s)),
    )

-- A label is left by pruning exactly if it was there and either belongs to another profile or names
-- a key that evidence supports, directly or through active aliases.
pub prune-labels :
    (profile_id : String) (s : KeyStore) (l : TargetKeyLabel)
    → Member l (prune_unsupported_keys profile_id s).1.catalog ↔ (
        Member l s.catalog
        × ((l.profile_id == profile_id) ≡ true
            → Supported
                (evidence_keys profile_id s)
                (active_aliases profile_id s.aliases)
                (l.target_type, l.key)))
prune-labels profile_id s l =
    let e = ap (λ (r : Result Error Unit × KeyStore). r.1.catalog) (prunes profile_id s) in
    let (out, into) = in_keys_iff profile_id s (l.target_type, l.key) in
    (
      λ m.
          let (stored, kept) =
            mem-delete_where (label_unsupported profile_id (keys profile_id s)) s.catalog l
              (subst (Member l) e m) in
          (stored, λ own. out (ground arith)),
      λ (stored, need). subst (Member l) (sym e) (
          delete_where-keeps (label_unsupported profile_id (keys profile_id s)) s.catalog l stored
            (elim (Bool-cases (l.profile_id == profile_id)) [
              | inl own ↦ rw (own, into (need own)) refl
              | inr other ↦ rw other refl
            ])),
    )

pub prune-IsAcyclic :
    (profile_id : String) (s : KeyStore)
    → IsAcyclic s.aliases
    → IsAcyclic (prune_unsupported_keys profile_id s).1.aliases
prune-IsAcyclic profile_id s h =
    subst IsAcyclic
      (sym (ap (λ (r : Result Error Unit × KeyStore). r.1.aliases) (prunes profile_id s)))
      (delete-IsAcyclic (alias_unsupported profile_id (keys profile_id s)) s.aliases h)

pub prune-evidence :
    (profile_id : String) (s : KeyStore)
    → (prune_unsupported_keys profile_id s).1.evidence ≡ s.evidence
prune-evidence profile_id s =
    ap (λ (r : Result Error Unit × KeyStore). r.1.evidence) (prunes profile_id s)
