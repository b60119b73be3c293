-- ===== src/Jobs/Claims.antt =====
-- What `claim_next` returns.
use soulmate.Prelude.{
  ℕ, String, ◌≡◌, refl, sym, true, ◌&&◌, some, List, [], ◌∷◌, ◌==◌, filter, sort_by, update_where,
  inl, inr, Option-cases, some_inj, none-ne-some, Member, at_head, mem-sort_by, mem-filter,
}
use soulmate.Jobs.Store.{
  Job, Store, claimable, candidate, comes_first, first, is_lost, give_up, start, take_candidate,
  claim_next,
}

mem-first : (jobs : Store) (j : Job) → first jobs ≡ some j → Member j jobs
mem-first [] j h = absurd (none-ne-some h)
mem-first (x ∷ jobs) j h = at_head (sym (some_inj h))

-- A candidate is a stored job that may be claimed.
candidate_lem :
    (now stale_before : ℕ) (job_types : List String) (jobs : Store) (j : Job)
    → candidate now stale_before job_types jobs ≡ some j
    → Member j jobs × (claimable now stale_before job_types j ≡ true)
unfolding candidate
candidate_lem now stale_before job_types jobs j h =
    mem-filter (claimable now stale_before job_types) jobs j (
      mem-sort_by comes_first (filter (claimable now stale_before job_types) jobs) j
        (mem-first (sort_by comes_first (filter (claimable now stale_before job_types) jobs)) j h))

-- The table after the sweep of the lost jobs.
abbrev pub swept : ℕ → ℕ → Store → Store
swept now stale_before jobs = update_where (is_lost stale_before) (give_up now) jobs

-- A claim that returns a job: its candidate, and what is left.
pub record Claim (now stale_before : ℕ) (job_types : List String) (jobs : Store) (j : Job)
    : Type 0 where
  pub chosen : Job
  pub stands : Member chosen (swept now stale_before jobs)
  pub ready : claimable now stale_before job_types chosen ≡ true
  pub started : j ≡ start now chosen
  pub left :
      (claim_next now stale_before job_types jobs).1
      ≡ update_where
          (λ k. k.id == chosen.id && claimable now stale_before job_types k)
          (start now)
          (swept now stale_before jobs)

pub claim_next-Claim :
    (now stale_before : ℕ) (job_types : List String) (jobs : Store) (j : Job)
    → (claim_next now stale_before job_types jobs).0 ≡ some j
    → Claim now stale_before job_types jobs j
unfolding claim_next take_candidate
claim_next-Claim now stale_before [] jobs j h = absurd (none-ne-some h)
claim_next-Claim now stale_before (t ∷ ts) jobs j h =
    elim (Option-cases (candidate now stale_before (t ∷ ts) (swept now stale_before jobs))) [
      | inl empty ↦ absurd (none-ne-some (rw empty at h))
      | inr (c, found) ↦
          let (stands, ready) =
            candidate_lem now stale_before (t ∷ ts) (swept now stale_before jobs) c found in
          record {
            chosen = c;
            stands = stands;
            ready = ready;
            started = sym (some_inj (rw found at h));
            left = rw found refl;
          }
    ]
