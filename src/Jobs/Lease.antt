-- ===== src/Jobs/Lease.antt =====
-- While the lease of a claimed job lasts, no other worker gets the job.
use soulmate.Prelude.{
  sym, subst, ℕ, ◌≤◌, String, ◌≡◌, ◌≢◌, refl, sym, ap, ◌∙◌, Bool, true, false, ◌&&◌, Option, none,
  List, [], ◌∷◌, ◌==◌, eq_iff, any, All, All-append, All-update_where, update_where, leb, arith,
  inl, inr, Bool-cases, Option-cases, false≢true,
}
use soulmate.Jobs.Store.{
  Job, JobStatus, running, succeeded, failed, queued, is_running, is_failed, is_queued, is_stale,
  locked_before, Store, claimable, candidate, is_lost, give_up, start, take_candidate, claim_next,
  enqueue, finish, finished, mark_succeeded, mark_failed, attempt_failed, requeue_failed,
  requeueable, requeued, has_id,
}
use soulmate.Exec.{Result-cases}
use soulmate.Jobs.Worker.{
  HandlerEnd, returned, raised, cancelled, stored_keeps, DurableJobWorker, record_result,
  retry_time,
}
use soulmate.Jobs.Claims.{swept}

-- If the row has this id, it is running with a lock that no deadline up to `since` has passed.
abbrev pub Held : String → ℕ → Job → Type 0
Held id since r =
    has_id id r ≡ true
    → (is_running r.status ≡ true)
      × ((stale_before : ℕ) → stale_before ≤ since → locked_before stale_before r.locked_at ≡ false)

run_not-queued :
    (s : JobStatus) → is_running s ≡ true → (is_queued s ≡ false) × (is_failed s ≡ false)
run_not-queued queued h = absurd (cc h)
run_not-queued running h = (refl, refl)
run_not-queued succeeded h = absurd (cc h)
run_not-queued failed h = absurd (cc h)

-- A held job can be neither claimed nor swept with such a deadline.
Held-fresh :
    (id : String) (since stale_before : ℕ) (r : Job)
    → stale_before ≤ since
    → Held id since r
    → has_id id r ≡ true
    → is_stale stale_before r ≡ false
Held-fresh id since stale_before r early held same =
    rw ((held same).1 stale_before early) (ground arith)

pub Held-unclaimable :
    (id : String) (now since stale_before : ℕ) (job_types : List String) (r : Job)
    → stale_before ≤ since
    → Held id since r
    → has_id id r ≡ true
    → claimable now stale_before job_types r ≡ false
unfolding claimable
Held-unclaimable id now since stale_before job_types r early held same =
    rw
      (
        Held-fresh id since stale_before r early held same,
        (run_not-queued r.status (held same).0).0,
      )
      (ground arith)

both : (a b : Bool) → (a && b) ≡ true → (a ≡ true) × (b ≡ true)
both a b h = ground arith

other_id :
    (id j : String) (r : Job) → j ≢ id → has_id j r ≡ true → has_id id r ≡ true → false ≡ true
other_id id j r other a b = absurd (other (sym ((eq_iff r.id j).0 a) ∙ (eq_iff r.id id).0 b))

module _ (id : String) (since : ℕ) (jobs : Store) (held : All (Held id since) jobs) where
  pub swept-Held :
      (now stale_before : ℕ)
      → stale_before ≤ since
      → All (Held id since) (swept now stale_before jobs)
  swept-Held now stale_before early =
      All-update_where (Held id since) (is_lost stale_before) (give_up now)
        (λ r on h same. absurd (
          false≢true (
            sym (Held-fresh id since stale_before r early h same)
            ∙ (both (is_stale stale_before r) (leb r.max_attempts r.attempts) on).0)))
        jobs held

  claim_next-Held :
      (now stale_before : ℕ) (job_types : List String)
      → stale_before ≤ since
      → All (Held id since) (claim_next now stale_before job_types jobs).1
  unfolding claim_next take_candidate
  claim_next-Held now stale_before [] early = held
  claim_next-Held now stale_before (t ∷ ts) early =
      elim (Option-cases (candidate now stale_before (t ∷ ts) (swept now stale_before jobs))) [
        | inl empty ↦ rw empty (swept-Held now stale_before early)
        | inr (c, found) ↦ rw found (
            All-update_where (Held id since)
              (λ k. has_id c.id k && claimable now stale_before (t ∷ ts) k) (start now)
              (λ r on h same. absurd (
                false≢true (
                  sym (Held-unclaimable id now since stale_before (t ∷ ts) r early h same)
                  ∙ (both (has_id c.id r) (claimable now stale_before (t ∷ ts) r) on).1)))
              (swept now stale_before jobs) (swept-Held now stale_before early))
      ]

  enqueue-Held : (j : Job) → j.id ≢ id → All (Held id since) (enqueue j jobs).1
  unfolding enqueue
  enqueue-Held j other = elim (Bool-cases (any (has_id j.id) jobs)) [
    | inl clash ↦ rw clash held
    | inr fresh ↦ rw fresh (
        All-append (Held id since) jobs (j ∷ []) held
          ((λ same. absurd (other ((eq_iff j.id id).0 same))), tt))
  ]

  requeue_failed-Held : (j : String) (now : ℕ) → All (Held id since) (requeue_failed j now jobs).1
  unfolding requeue_failed
  requeue_failed-Held j now =
      All-update_where (Held id since) (requeueable j) (requeued now)
        (λ r on h same. absurd (
          false≢true (
            sym (run_not-queued r.status (h same).0).1
            ∙ (both (has_id j r) (is_failed r.status) on).1)))
        jobs held

  -- an update of the rows with another id
  update-Held :
      (j : String) (f : Job → Job)
      → ((r : Job) → (f r).id ≡ r.id)
      → j ≢ id
      → All (Held id since) (update_where (has_id j) f jobs)
  update-Held j f same_id other =
      All-update_where (Held id since) (has_id j) f
        (λ r on h same.
          absurd
            (false≢true (other_id id j r other on (ap (λ k. k == id) (sym (same_id r)) ∙ same))))
        jobs held

  mark_succeeded-Held :
      (j : String) (at : ℕ) → j ≢ id → All (Held id since) (mark_succeeded j at jobs).1
  unfolding mark_succeeded finish
  mark_succeeded-Held j at other = elim (Bool-cases (any (has_id j) jobs)) [
    | inl found ↦ rw found (update-Held j (finished at succeeded none) (λ r. refl) other)
    | inr absent ↦ rw absent held
  ]

  mark_failed-Held :
      (j error : String) (at : ℕ) (t : Option ℕ)
      → j ≢ id
      → All (Held id since) (mark_failed j error at t jobs).1
  unfolding mark_failed
  mark_failed-Held j error at t other = elim (Bool-cases (any (has_id j) jobs)) [
    | inl found ↦ rw found (update-Held j (attempt_failed error at t) (λ r. refl) other)
    | inr absent ↦ rw absent held
  ]

  record_result-Held :
      (w : DurableJobWorker) (j : Job) (outcome : HandlerEnd) (at : ℕ)
      → j.id ≢ id
      → All (Held id since) (record_result w j outcome at jobs).1
  unfolding record_result
  record_result-Held w j returned at other =
      subst (All (Held id since)) (sym (stored_keeps (mark_succeeded j.id at jobs)))
        (mark_succeeded-Held j.id at other)
  record_result-Held w j cancelled at other = held
  record_result-Held w j (raised exception) at other = elim (Result-cases (retry_time w j at)) [
    | inl (e, bad) ↦ rw bad held
    | inr (t, fine) ↦ rw fine (
        subst (All (Held id since)) (sym (stored_keeps (mark_failed j.id _ at t jobs)))
          (mark_failed-Held j.id _ at t other))
  ]

-- What other clients do while the lease of the job lasts: they enqueue other jobs, requeue, claim
-- with a deadline that the lock has not passed, and record the results of other jobs.
pub data Step (id : String) (since : ℕ) : Store → Store → Type 0 where
  add : (jobs : Store) (j : Job) → j.id ≢ id → Step id since jobs (enqueue j jobs).1
  again : (jobs : Store) (j : String) (now : ℕ) → Step id since jobs (requeue_failed j now jobs).1
  claim :
      (jobs : Store) (now stale_before : ℕ) (job_types : List String)
      → stale_before ≤ since
      → Step id since jobs (claim_next now stale_before job_types jobs).1
  result :
      (jobs : Store) (w : DurableJobWorker) (j : Job) (outcome : HandlerEnd) (at : ℕ)
      → j.id ≢ id
      → Step id since jobs (record_result w j outcome at jobs).1

pub data Reach (id : String) (since : ℕ) (jobs : Store) : Store → Type 0 where
  here : Reach id since jobs jobs
  next : {t u : Store} → Reach id since jobs t → Step id since t u → Reach id since jobs u

Step-Held :
    {id : String} {since : ℕ} {s t : Store}
    → Step id since s t
    → All (Held id since) s
    → All (Held id since) t
Step-Held {id} {since} (add jobs j other) h = enqueue-Held id since jobs h j other
Step-Held {id} {since} (again jobs j now) h = requeue_failed-Held id since jobs h j now
Step-Held {id} {since} (claim jobs now stale_before ts early) h =
    claim_next-Held id since jobs h now stale_before ts early
Step-Held {id} {since} (result jobs w j outcome at other) h =
    record_result-Held id since jobs h w j outcome at other

pub Reach-Held :
    {id : String} {since : ℕ} {s t : Store}
    → Reach id since s t
    → All (Held id since) s
    → All (Held id since) t
Reach-Held here h = h
Reach-Held (next r st) h = Step-Held st (Reach-Held r h)
