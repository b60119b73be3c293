-- ===== src/Keys/History.antt =====
-- What holds in every store that the operations on keys can reach.
use soulmate.Prelude.{
  ℕ, String, ◌≡◌, refl, sym, subst, Bool, true, false, not, Option, none, some, List, [], ◌∷◌, ◌++◌,
  any, find, inl, inr, Bool-cases, Option-cases, delete_where, map, ◌==◌, ◌&&◌,
}
use soulmate.Text.{strip}
use soulmate.Exec.{Result, ok, err, Result-cases}
use soulmate.Keys.Records.{TargetKeyAlias, EvidenceTargetType, is_preference, alias_ok}
use soulmate.Keys.Aliases.{Identity, Error, lookup}
use soulmate.Keys.Store.{
  KeyStore, at_identity, upsert, get, remove, bump_evidence_revision, list_aliases,
}
use soulmate.Keys.Supported.{prune_unsupported_keys, evidence_key}
use soulmate.Keys.Evidence.{remove_evidence, get_evidence, list_for_profile}
use soulmate.Keys.Labels.{
  upsert_label, store_label, bump_if, remove_label, is_owner_label, same_label, label_at,
}
use soulmate.Keys.Review.{
  KeyAliasReviewAction, approve, reject, invert, create, review, reviewed, checked_upsert, uses_key,
}
use soulmate.Keys.Propose.{
  register_normalized_aliases, store_proposals, store_all, propose_normalized_aliases,
}
use soulmate.Keys.Acyclic.{IsAcyclic, Builds, IsAcyclic-Builds, Ends}
use soulmate.Keys.Entries.{Unique}
use soulmate.Keys.Depth.{bottom}
use soulmate.Keys.Upsert.{upsert-IsAcyclic, delete-IsAcyclic}
use soulmate.Keys.Prune.{prune-IsAcyclic}
use soulmate.Float.{ℤ}
use soulmate.Domain.Evidence.{Evidence, TargetKeyLabel}

-- The calls that change the tables of keys: the owner's reviews, the aliases and labels that other
-- services write, new and removed evidence.
pub data Call : Type 0 where
  create_alias : String → EvidenceTargetType → String → String → ℤ → ℕ → Call
  review_alias : Identity → KeyAliasReviewAction → ℕ → Call
  remove_alias : Identity → Call
  upsert_alias : TargetKeyAlias → Call
  register_aliases : String → ℕ → Call
  add_evidence : Evidence → Call
  drop_evidence : String → Call
  prune_keys : String → Call
  write_label : TargetKeyLabel → Call
  drop_label : String → EvidenceTargetType → String → Call

module _ (casefold : String → String) where
  pub after : Call → KeyStore → KeyStore
  after (create_alias p t k c n now) s = (create p t k c n now s).1
  after (review_alias i action now) s = (review i action now s).1
  after (remove_alias i) s = (remove i s).1
  after (upsert_alias a) s = (upsert a s).1
  after (register_aliases p now) s = (register_normalized_aliases casefold p now s).1
  after (add_evidence e) s =
      bump_evidence_revision e.profile_id (record s { evidence = s.evidence ++ e ∷ [] })
  after (drop_evidence id) s = (remove_evidence id s).1
  after (prune_keys p) s = (prune_unsupported_keys p s).1
  after (write_label l) s = (upsert_label l s).1
  after (drop_label p t k) s = (remove_label p t k s).1

  pub data Reachable : KeyStore → Type 0 where
    empty :
        Reachable
          (record { evidence = []; revisions = []; aliases = []; catalog = []; embeddings = [] })
    step : {s : KeyStore} (c : Call) → Reachable s → Reachable (after c s)

abbrev Good : KeyStore → Type 0
Good s = IsAcyclic s.aliases

checked_upsert-Good : (a : TargetKeyAlias) (s : KeyStore) → Good s → Good (checked_upsert a s).1
checked_upsert-Good a s h = elim (Bool-cases (alias_ok a)) [
  | inl valid ↦ rw valid (upsert-IsAcyclic a s h)
  | inr invalid ↦ rw invalid h
]

reviewed-Good :
    (action : KeyAliasReviewAction) (now : ℕ) (a : TargetKeyAlias) (s : KeyStore)
    → Good s
    → Good (reviewed action now a s).1
reviewed-Good reject now a s h = checked_upsert-Good _ s h
reviewed-Good approve now a s h = checked_upsert-Good _ s h
reviewed-Good invert now a s h = elim (Bool-cases (is_preference a.target_type)) [
  | inl fits ↦ rw fits (checked_upsert-Good _ s h)
  | inr other ↦ rw other h
]

review-Good :
    (i : Identity) (action : KeyAliasReviewAction) (now : ℕ) (s : KeyStore)
    → Good s
    → Good (review i action now s).1
unfolding review
review-Good i action now s h = elim (Option-cases (get i s)) [
  | inl missing ↦ rw missing h
  | inr (a, found) ↦ rw found (reviewed-Good action now a s h)
]

create-Good :
    (p : String) (t : EvidenceTargetType) (k c : String) (n : ℤ) (now : ℕ) (s : KeyStore)
    → Good s
    → Good (create p t k c n now s).1
unfolding create
create-Good p t k c n now s h = elim (Bool-cases (uses_key p t (strip k) s)) [
  | inl used ↦ rw used (checked_upsert-Good _ s h)
  | inr unused ↦ rw unused h
]

remove-Good : (i : Identity) (s : KeyStore) → Good s → Good (remove i s).1
unfolding remove bump_evidence_revision
remove-Good i s h = elim (Bool-cases (any (at_identity i) s.aliases)) [
  | inl stored ↦ rw stored (delete-IsAcyclic (at_identity i) s.aliases h)
  | inr missing ↦ rw missing h
]

store_proposals-Good :
    (proposals : List TargetKeyAlias) (s : KeyStore) → Good s → Good (store_proposals proposals s).1
unfolding store_proposals
store_proposals-Good [] s h = h
store_proposals-Good (a ∷ proposals) s h =
    store_proposals-Good proposals (upsert a s).1 (upsert-IsAcyclic a s h)

store_all-Good :
    (r : Result Error (List TargetKeyAlias)) (s : KeyStore) → Good s → Good (store_all r s).1
store_all-Good (err e) s h = h
store_all-Good (ok proposals) s h = store_proposals-Good proposals s h

remove_evidence-Good : (id : String) (s : KeyStore) → Good s → Good (remove_evidence id s).1
unfolding remove_evidence bump_evidence_revision
remove_evidence-Good id s h = elim (Option-cases (get_evidence id s)) [
  | inl missing ↦ rw missing h
  | inr (e, found) ↦
      let without = record s { evidence = delete_where (λ e. e.id == id) s.evidence } in
      let kept = prune-IsAcyclic e.profile_id without h in
      rw found (elim (Result-cases (prune_unsupported_keys e.profile_id without).0) [
        | inl (x, bad) ↦ rw bad kept
        | inr (u, fine) ↦ rw fine kept
      ])
]

bump_if-aliases : (b : Bool) (p : String) (s : KeyStore) → (bump_if b p s).aliases ≡ s.aliases
unfolding bump_evidence_revision
bump_if-aliases true p s = refl
bump_if-aliases false p s = refl

store_label-aliases :
    (l : TargetKeyLabel) (o : Option TargetKeyLabel) (s : KeyStore)
    → (store_label l o s).1.aliases ≡ s.aliases
store_label-aliases l none s = bump_if-aliases (is_owner_label l.source) l.profile_id _
store_label-aliases l (some row) s =
    elim (Bool-cases (is_owner_label row.source && not (is_owner_label l.source))) [
      | inl kept ↦ rw kept refl
      | inr free ↦ rw free (bump_if-aliases (is_owner_label l.source) l.profile_id _)
    ]

upsert_label-Good : (l : TargetKeyLabel) (s : KeyStore) → Good s → Good (upsert_label l s).1
unfolding upsert_label
upsert_label-Good l s h =
    subst IsAcyclic (sym (store_label-aliases l (find (same_label l) s.catalog) s)) h

remove_label-aliases :
    (p : String) (t : EvidenceTargetType) (k : String) (s : KeyStore)
    → (remove_label p t k s).1.aliases ≡ s.aliases
unfolding remove_label bump_evidence_revision
remove_label-aliases p t k s = elim (Bool-cases (any (label_at p t k) s.catalog)) [
  | inl stored ↦ rw stored refl
  | inr missing ↦ rw missing refl
]

module _ (casefold : String → String) where
  after-Good : (c : Call) (s : KeyStore) → Good s → Good (after casefold c s)
  unfolding after bump_evidence_revision register_normalized_aliases
  after-Good (create_alias p t k c n now) s h = create-Good p t k c n now s h
  after-Good (review_alias i action now) s h = review-Good i action now s h
  after-Good (remove_alias i) s h = remove-Good i s h
  after-Good (upsert_alias a) s h = upsert-IsAcyclic a s h
  after-Good (register_aliases p now) s h =
      store_all-Good
        (propose_normalized_aliases casefold p (map evidence_key (list_for_profile p s))
          (list_aliases p none s) now)
        s h
  after-Good (add_evidence e) s h = h
  after-Good (drop_evidence id) s h = remove_evidence-Good id s h
  after-Good (prune_keys p) s h = prune-IsAcyclic p s h
  after-Good (write_label l) s h = upsert_label-Good l s h
  after-Good (drop_label p t k) s h = subst IsAcyclic (sym (remove_label-aliases p t k s)) h

  Reachable-Good : {s : KeyStore} → Reachable casefold s → Good s
  unfolding Ends Unique lookup
  Reachable-Good empty = record { unique = tt; ends = λ i. (0, bottom refl) }
  Reachable-Good (step {s} c r) = after-Good c s (Reachable-Good r)

  -- In every store that the calls reach from an empty one, in any order, the stored aliases build a
  -- map: no two active ones conflict, and none of their chains is a cycle. Folding of case may be
  -- any function.
  pub Reachable-Builds : (s : KeyStore) → Reachable casefold s → Builds s.aliases
  Reachable-Builds s r = IsAcyclic-Builds s.aliases (Reachable-Good r)
