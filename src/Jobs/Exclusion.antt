-- ===== src/Jobs/Exclusion.antt =====
-- A claim starts a lease, and the lease keeps other claims away.
use soulmate.Prelude.{
  ℕ, ◌≤◌, String, ◌≡◌, ◌≢◌, refl, sym, ap, subst, ◌∙◌, Bool, true, ◌&&◌, some, List, [], ◌∷◌, ◌==◌,
  eq_iff, All, All-Member, update_where, arith, inl, inr, Bool-cases, false≢true,
}
use soulmate.Jobs.Store.{Job, Store, claimable, start, claim_next, has_id, is_lost, give_up}
use soulmate.Jobs.Claims.{swept, claim_next-Claim}
use soulmate.Jobs.Rows.{Distinct, Distinct-same, update-Distinct}
use soulmate.Jobs.Lease.{Held, Held-unclaimable, swept-Held, Reach, Reach-Held}

started-Held : (id : String) (now : ℕ) (j : Job) → Held id now (start now j)
started-Held id now j same = (refl, λ stale_before early. ground arith)

-- Where every row with the id passes a test, the rows that the test selects start, and are held.
start-Held :
    (id : String) (now : ℕ) (p : Job → Bool) (jobs : Store)
    → All (λ r. has_id id r ≡ true → p r ≡ true) jobs
    → All (Held id now) (update_where p (start now) jobs)
unfolding update_where
start-Held id now p [] h = tt
start-Held id now p (r ∷ jobs) h = (
  elim (Bool-cases (p r)) [
    | inl on ↦ rw on (started-Held id now r)
    | inr off ↦ rw off (λ same. absurd (false≢true (sym off ∙ h.0 same)))
  ],
  start-Held id now p jobs h.1,
)

same-selects :
    (c : Job) (now stale_before : ℕ) (job_types : List String) (jobs : Store)
    → claimable now stale_before job_types c ≡ true
    → All (λ r. has_id c.id r ≡ true → r ≡ c) jobs
    → All
        (λ r.
          has_id c.id r ≡ true → (has_id c.id r && claimable now stale_before job_types r) ≡ true)
        jobs
same-selects c now stale_before job_types [] ready h = tt
same-selects c now stale_before job_types (r ∷ jobs) ready h = (
  (λ same. rw (same, h.0 same, ready) refl),
  same-selects c now stale_before job_types jobs ready h.1,
)

claimed-Held :
    (now stale_before : ℕ) (job_types : List String) (jobs : Store) (j : Job)
    → Distinct jobs
    → (claim_next now stale_before job_types jobs).0 ≡ some j
    → All (Held j.id now) (claim_next now stale_before job_types jobs).1
claimed-Held now stale_before job_types jobs j distinct h =
    let c = claim_next-Claim now stale_before job_types jobs j h in
    let rows =
      Distinct-same c.chosen (swept now stale_before jobs)
        (update-Distinct (is_lost stale_before) (give_up now) (λ r. refl) jobs distinct) c.stands in
    subst (λ (k : Job). All (Held k.id now) (claim_next now stale_before job_types jobs).1)
      (sym c.started)
      (rw c.left (
        start-Held c.chosen.id now
          (λ k. k.id == c.chosen.id && claimable now stale_before job_types k)
          (swept now stale_before jobs)
          (same-selects c.chosen now stale_before job_types (swept now stale_before jobs) c.ready
            rows)))

-- From a table of jobs with distinct ids, while other clients respect the lease of a claimed job,
-- no claim returns that job again: a worker that claims later with a deadline that the lock has not
-- passed gets another job.
pub claim_exclusive :
    (now now' stale_before stale_before' : ℕ) (job_types job_types' : List String) (jobs t : Store)
    (j k : Job)
    → Distinct jobs
    → (claim_next now stale_before job_types jobs).0 ≡ some j
    → Reach j.id now (claim_next now stale_before job_types jobs).1 t
    → stale_before' ≤ now
    → (claim_next now' stale_before' job_types' t).0 ≡ some k
    → k.id ≢ j.id
claim_exclusive now now' stale_before stale_before' job_types job_types' jobs t j k distinct first
      later early second same =
    let held = Reach-Held later (claimed-Held now stale_before job_types jobs j distinct first) in
    let c = claim_next-Claim now' stale_before' job_types' t k second in
    let chosen_held =
      All-Member (Held j.id now) (swept now' stale_before' t) c.chosen
        (swept-Held j.id now t held now' stale_before' early) c.stands in
    let chosen_same : has_id j.id c.chosen ≡ true =
      (eq_iff c.chosen.id j.id).1 (ap (λ (r : Job). r.id) (sym c.started) ∙ same) in
    false≢true (
      sym (
        Held-unclaimable j.id now' now stale_before' job_types' c.chosen early chosen_held
          chosen_same)
      ∙ c.ready)
