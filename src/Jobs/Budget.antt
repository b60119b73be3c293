-- ===== src/Jobs/Budget.antt =====
-- No job is tried more often than its budget allows, and exactly the running ones are locked.
use soulmate.Prelude.{
  sym, subst, ℕ, ◌-◌, ◌≤◌, String, ◌≡◌, refl, Bool, true, false, ◌&&◌, Option, none, is_some, List,
  [], ◌∷◌, any, All, All-append, All-update_where, if◌then◌else◌, arith, inl, inr, Bool-cases,
  Option-cases,
}
use soulmate.Jobs.Store.{
  Job, succeeded, failed, queued, is_running, Store, claimable, candidate, is_lost, give_up, start,
  take_candidate, claim_next, enqueue, finish, finished, mark_succeeded, mark_failed,
  attempt_failed, exhausted, requeue_failed, requeueable, requeued, has_id,
}
use soulmate.Exec.{Result-cases}
use soulmate.Jobs.Worker.{
  HandlerEnd, returned, raised, cancelled, stored_keeps, DurableJobWorker, record_result,
  run_claimed, process_once, retry_time,
}
use soulmate.Jobs.Claims.{swept}

abbrev pub IsSound : Job → Type 0
IsSound j = (j.attempts ≤ j.max_attempts) × (is_running j.status ≡ is_some j.locked_at)

start-IsSound :
    (now stale_before : ℕ) (job_types : List String) (p : Job → Bool) (j : Job)
    → (p j && claimable now stale_before job_types j) ≡ true
    → IsSound (start now j)
unfolding claimable
start-IsSound now stale_before job_types p j h = (ground arith, refl)

not_running : (b : Bool) → is_running (if b then failed else queued) ≡ false
not_running true = refl
not_running false = refl

module _ (jobs : Store) (sound : All IsSound jobs) where
  swept-IsSound : (now stale_before : ℕ) → All IsSound (swept now stale_before jobs)
  swept-IsSound now stale_before =
      All-update_where IsSound (is_lost stale_before) (give_up now) (λ j on h. (h.0, refl)) jobs
        sound

  claim_next-IsSound :
      (now stale_before : ℕ) (job_types : List String)
      → All IsSound (claim_next now stale_before job_types jobs).1
  unfolding claim_next take_candidate
  claim_next-IsSound now stale_before [] = sound
  claim_next-IsSound now stale_before (t ∷ ts) =
      elim (Option-cases (candidate now stale_before (t ∷ ts) (swept now stale_before jobs))) [
        | inl empty ↦ rw empty (swept-IsSound now stale_before)
        | inr (c, found) ↦ rw found (
            All-update_where IsSound (λ k. has_id c.id k && claimable now stale_before (t ∷ ts) k)
              (start now) (λ j on h. start-IsSound now stale_before (t ∷ ts) (has_id c.id) j on)
              (swept now stale_before jobs) (swept-IsSound now stale_before))
      ]

  enqueue-IsSound : (j : Job) → IsSound j → All IsSound (enqueue j jobs).1
  unfolding enqueue
  enqueue-IsSound j fit = elim (Bool-cases (any (has_id j.id) jobs)) [
    | inl clash ↦ rw clash sound
    | inr fresh ↦ rw fresh (All-append IsSound jobs (j ∷ []) sound (fit, tt))
  ]

  mark_succeeded-IsSound : (id : String) (at : ℕ) → All IsSound (mark_succeeded id at jobs).1
  unfolding mark_succeeded finish
  mark_succeeded-IsSound id at = elim (Bool-cases (any (has_id id) jobs)) [
    | inl found ↦ rw found (
        All-update_where IsSound (has_id id) (finished at succeeded none) (λ j on h. (h.0, refl))
          jobs sound)
    | inr absent ↦ rw absent sound
  ]

  mark_failed-IsSound :
      (id error : String) (at : ℕ) (retry_at : Option ℕ)
      → All IsSound (mark_failed id error at retry_at jobs).1
  unfolding mark_failed
  mark_failed-IsSound id error at retry_at = elim (Bool-cases (any (has_id id) jobs)) [
    | inl found ↦ rw found (
        All-update_where IsSound (has_id id) (attempt_failed error at retry_at)
          (λ j on h. (h.0, not_running (exhausted j))) jobs sound)
    | inr absent ↦ rw absent sound
  ]

  requeue_failed-IsSound : (id : String) (now : ℕ) → All IsSound (requeue_failed id now jobs).1
  unfolding requeue_failed
  requeue_failed-IsSound id now =
      All-update_where IsSound (requeueable id) (requeued now) (λ j on h. (ground arith, refl)) jobs
        sound

  record_result-IsSound :
      (w : DurableJobWorker) (j : Job) (result : HandlerEnd) (at : ℕ)
      → All IsSound (record_result w j result at jobs).1
  unfolding record_result
  record_result-IsSound w j returned at =
      subst (All IsSound) (sym (stored_keeps (mark_succeeded j.id at jobs)))
        (mark_succeeded-IsSound j.id at)
  record_result-IsSound w j cancelled at = sound
  record_result-IsSound w j (raised exception) at = elim (Result-cases (retry_time w j at)) [
    | inl (e, bad) ↦ rw bad sound
    | inr (t, fine) ↦ rw fine (
        subst (All IsSound) (sym (stored_keeps (mark_failed j.id _ at t jobs)))
          (mark_failed-IsSound j.id _ at t))
  ]

-- What the clients of the queue do: the owner's enqueueing and requeueing, and workers' runs, which
-- claim and record separately.
pub data Step : Store → Store → Type 0 where
  add : (jobs : Store) (j : Job) → IsSound j → Step jobs (enqueue j jobs).1
  again : (jobs : Store) (id : String) (now : ℕ) → Step jobs (requeue_failed id now jobs).1
  claim :
      (jobs : Store) (now stale_before : ℕ) (job_types : List String)
      → Step jobs (claim_next now stale_before job_types jobs).1
  result :
      (jobs : Store) (w : DurableJobWorker) (j : Job) (outcome : HandlerEnd) (at : ℕ)
      → Step jobs (record_result w j outcome at jobs).1

pub data Reach (jobs : Store) : Store → Type 0 where
  here : Reach jobs jobs
  next : {t u : Store} → Reach jobs t → Step t u → Reach jobs u

Step-IsSound : {s t : Store} → Step s t → All IsSound s → All IsSound t
Step-IsSound (add jobs j fit) h = enqueue-IsSound jobs h j fit
Step-IsSound (again jobs id now) h = requeue_failed-IsSound jobs h id now
Step-IsSound (claim jobs now stale_before ts) h = claim_next-IsSound jobs h now stale_before ts
Step-IsSound (result jobs w j outcome at) h = record_result-IsSound jobs h w j outcome at

-- From a queue of sound jobs, any interleaving of clients and workers leaves sound jobs: none has
-- more attempts than its budget, and exactly the running ones are locked.
pub Reach-IsSound : {s t : Store} → Reach s t → All IsSound s → All IsSound t
Reach-IsSound here h = h
Reach-IsSound (next r st) h = Step-IsSound st (Reach-IsSound r h)

-- A pass of the worker is a claim, and the record of a result if a job was claimed.
pub process_once-Reach :
    (w : DurableJobWorker) (handle : String → String → HandlerEnd) (now ended_at : ℕ) (jobs : Store)
    → Reach jobs (process_once w handle now ended_at jobs).1
unfolding process_once run_claimed
process_once-Reach w handle now ended_at jobs =
    elim (Option-cases (claim_next now (now - w.lease_timeout) w.job_types jobs).0) [
      | inl idle ↦ rw idle (next here (claim jobs now (now - w.lease_timeout) w.job_types))
      | inr (j, claimed) ↦ rw claimed (
          next (next here (claim jobs now (now - w.lease_timeout) w.job_types)) (
            result (claim_next now (now - w.lease_timeout) w.job_types jobs).1 w j
              (handle j.job_type j.payload) ended_at))
    ]
