-- ===== src/Delegation/Policies.antt =====
-- Policies stay safe: what the engine writes of them, as steps that any client may take.
use soulmate.Prelude.{
  ◌≡◌, Bool, true, false, Option, none, some, [], ◌∷◌, arith, All-map, All-append, set_where,
  update_where, ◌&&◌, any, inl, inr, Bool-cases, ◌==◌,
}
use soulmate.Float.{in_unit}
use soulmate.Text.{is_blank}
use soulmate.Delegation.Records.{DelegationPolicy, policy_ok, requires_confirmation}
use soulmate.Delegation.Store.{
  Store, upsert, upsert_row, policy_conflict, revise_policy, get_for_action,
}
use soulmate.Delegation.Steps.{
  submit, change, unlink, write_policies, IsSafe, Reach, here, one, Reach-trans,
}
use soulmate.Delegation.Trace.{
  reason_of, EngineStep, submitted, changed, unlinked, upserted, Trace, start, and_then,
}
use soulmate.Delegation.Runs.{Call, after, after-Trace}

pub policy_parts :
    (p : DelegationPolicy)
    → policy_ok p ≡ true
    → (is_blank p.action_type ≡ false)
      × (in_unit p.minimum_confidence ≡ true)
      × ((p.allow_automatic && requires_confirmation p.impact) ≡ false)
unfolding policy_ok
policy_parts p h = ground arith

policy_whole :
    (p : DelegationPolicy)
    → is_blank p.action_type ≡ false
    → in_unit p.minimum_confidence ≡ true
    → (p.allow_automatic && requires_confirmation p.impact) ≡ false
    → policy_ok p ≡ true
unfolding policy_ok
policy_whole p a b c = rw (a, b, c)

revise-IsSafe : (p q : DelegationPolicy) → IsSafe p → IsSafe q → IsSafe (revise_policy p q)
revise-IsSafe p q h k =
    let (a, b, c) = policy_parts p h.valid in
    record {
      valid = policy_whole (revise_policy p q) (policy_parts q k.valid).0 b c;
      above_floor = h.above_floor;
    }

revise_where-IsSafe :
    (test : DelegationPolicy → Bool) (p q : DelegationPolicy)
    → IsSafe p
    → IsSafe q
    → IsSafe (set_where test (revise_policy p) q)
revise_where-IsSafe test p q h k = elim (Bool-cases (test q)) [
  | inl on ↦ rw on (revise-IsSafe p q h k)
  | inr off ↦ rw off k
]

upsert_row-Reach :
    (p : DelegationPolicy) (o : Option DelegationPolicy) (s : Store)
    → IsSafe p
    → Reach s (upsert_row p o s).1
unfolding update_where
upsert_row-Reach p (some row) s safe = one (
    write_policies s _ (
      All-map IsSafe (set_where (λ q. q.id == row.id) (revise_policy p))
        (λ q k. revise_where-IsSafe (λ x. x.id == row.id) p q safe k) s.policies))
upsert_row-Reach p none s safe = elim (Bool-cases (any (policy_conflict p) s.policies)) [
  | inl clash ↦ rw clash here
  | inr free ↦
      rw free (one (write_policies s _ (λ h. All-append IsSafe s.policies (p ∷ []) h (safe, tt))))
]

upsert-Reach : (p : DelegationPolicy) (s : Store) → IsSafe p → Reach s (upsert p s).1
unfolding upsert
upsert-Reach p s safe =
    upsert_row-Reach p (get_for_action p.profile_id p.service_identity_id p.action_type s) s safe

EngineStep-Reach : {s t : Store} → EngineStep s t → Reach s t
EngineStep-Reach (submitted s r fresh new automatic) = one (submit s r fresh new)
EngineStep-Reach (changed s id {e} {st} a t) = one (change s id a (reason_of st) t)
EngineStep-Reach (unlinked s profile_id policy_id) = one (unlink s profile_id policy_id)
EngineStep-Reach (upserted s p safe) = upsert-Reach p s safe

Trace-Reach : {s t : Store} → Trace s t → Reach s t
Trace-Reach start = here
Trace-Reach (and_then p st) = Reach-trans (Trace-Reach p) (EngineStep-Reach st)

pub after-Reach : (c : Call) (s : Store) → Reach s (after c s)
after-Reach c s = Trace-Reach (after-Trace c s)
