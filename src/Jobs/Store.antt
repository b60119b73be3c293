-- ===== src/Jobs/Store.antt =====
-- Jobs and the methods of their repository, each of which is one transaction. A payload is its
-- JSON text, and instants are microseconds.
use soulmate.Prelude.{
  ℕ, ◌+◌, String, Bool, true, false, ◌&&◌, ◌||◌, Option, none, some, List, [], ◌∷◌, ◌++◌, ◌==◌, any,
  find, filter, sort_by, text_in, update_where, if◌then◌else◌, ltb, leb, eqb,
}
use soulmate.Exec.{Exec, ok, err}

pub data JobStatus : Type 0 where
  queued running succeeded failed : JobStatus

abbrev pub is_queued : JobStatus → Bool
is_queued queued = true
is_queued s = false

abbrev pub is_running : JobStatus → Bool
is_running running = true
is_running s = false

abbrev pub is_failed : JobStatus → Bool
is_failed failed = true
is_failed s = false

pub record Job : Type 0 where
  pub id : String
  pub job_type : String
  pub payload : String
  pub status : JobStatus
  pub attempts : ℕ
  pub max_attempts : ℕ
  pub available_at : ℕ
  pub created_at : ℕ
  pub updated_at : ℕ
  pub locked_at : Option ℕ
  pub last_error : Option String

-- `KeyError`, and the violation of the primary key.
pub data Error : Type 0 where
  key_error integrity_error : Error

abbrev pub Store : Type 0
Store = List Job

abbrev pub Action : Type 0 → Type 0
Action A = Exec Error Store A

abbrev pub has_id : String → Job → Bool
has_id job_id j = j.id == job_id

unfoldable pub enqueue : Job → Action Unit
enqueue job jobs =
    if any (has_id job.id) jobs then (err integrity_error, jobs) else (ok tt, jobs ++ job ∷ [])

unfoldable pub get : String → Store → Option Job
get job_id jobs = find (has_id job_id) jobs

-- `locked_at < stale_before`, which is not true of a missing lock
abbrev pub locked_before : ℕ → Option ℕ → Bool
locked_before stale_before none = false
locked_before stale_before (some at) = ltb at stale_before

abbrev pub is_stale : ℕ → Job → Bool
is_stale stale_before j = is_running j.status && locked_before stale_before j.locked_at

-- `claimable`
unfoldable pub claimable : ℕ → ℕ → List String → Job → Bool
claimable now stale_before job_types j =
    text_in j.job_type job_types
    && ltb j.attempts j.max_attempts
    && ((is_queued j.status && leb j.available_at now) || is_stale stale_before j)

-- The ORDER BY of the candidates; rows that are equal in it keep their order in the table.
abbrev queue_rank : Job → ℕ
queue_rank j = if is_queued j.status then 0 else 1

abbrev pub comes_first : Job → Job → Bool
comes_first a b =
    ltb (queue_rank a) (queue_rank b)
    || (eqb (queue_rank a) (queue_rank b)
        && (ltb a.available_at b.available_at
            || (eqb a.available_at b.available_at && leb a.created_at b.created_at)))

abbrev pub first : {A : Type 0} → List A → Option A
first [] = none
first (x ∷ xs) = some x

unfoldable pub candidate : ℕ → ℕ → List String → Store → Option Job
candidate now stale_before job_types jobs =
    first (sort_by comes_first (filter (claimable now stale_before job_types) jobs))

-- A final attempt that was interrupted.
abbrev pub is_lost : ℕ → Job → Bool
is_lost stale_before j = is_stale stale_before j && leb j.max_attempts j.attempts

abbrev pub give_up : ℕ → Job → Job
give_up now j = record j {
  status = failed;
  locked_at = none;
  last_error = some "Worker interrupted during final attempt";
  updated_at = now;
}

abbrev pub start : ℕ → Job → Job
start now j = record j {
  status = running;
  attempts = j.attempts + 1;
  locked_at = some now;
  updated_at = now;
  last_error = none;
}

-- The UPDATE of `claim_next` on the row of the candidate.
unfoldable pub take_candidate : ℕ → ℕ → List String → Store → Option Job → Option Job × Store
take_candidate now stale_before job_types jobs none = (none, jobs)
take_candidate now stale_before job_types jobs (some j) = (
  some (start now j),
  update_where (λ k. has_id j.id k && claimable now stale_before job_types k) (start now) jobs,
)

unfoldable pub claim_next : ℕ → ℕ → List String → Store → Option Job × Store
claim_next now stale_before [] jobs = (none, jobs)
claim_next now stale_before (t ∷ job_types) jobs =
    let swept = update_where (is_lost stale_before) (give_up now) jobs in
    take_candidate now stale_before (t ∷ job_types) swept
      (candidate now stale_before (t ∷ job_types) swept)

abbrev pub finished : ℕ → JobStatus → Option String → Job → Job
finished now status error j = record j {
  status = status;
  locked_at = none;
  last_error = error;
  updated_at = now;
}

-- `_finish`
unfoldable pub finish : String → ℕ → JobStatus → Option String → Action Unit
finish job_id now status error jobs =
    if any (has_id job_id) jobs
    then (ok tt, update_where (has_id job_id) (finished now status error) jobs)
    else (err key_error, jobs)

unfoldable pub mark_succeeded : String → ℕ → Action Unit
mark_succeeded job_id completed_at = finish job_id completed_at succeeded none

abbrev or_else : {A : Type 0} → Option A → A → A
or_else none a = a
or_else (some b) a = b

abbrev pub exhausted : Job → Bool
exhausted j = leb j.max_attempts j.attempts

abbrev pub attempt_failed : String → ℕ → Option ℕ → Job → Job
attempt_failed error failed_at retry_at j = record j {
  status = if exhausted j then failed else queued;
  available_at = if exhausted j then j.available_at else or_else retry_at j.available_at;
  locked_at = none;
  last_error = some error;
  updated_at = failed_at;
}

unfoldable pub mark_failed : String → String → ℕ → Option ℕ → Action Unit
mark_failed job_id error failed_at retry_at jobs =
    if any (has_id job_id) jobs
    then (ok tt, update_where (has_id job_id) (attempt_failed error failed_at retry_at) jobs)
    else (err key_error, jobs)

abbrev pub requeueable : String → Job → Bool
requeueable job_id j = has_id job_id j && is_failed j.status

abbrev pub requeued : ℕ → Job → Job
requeued now j = record j {
  status = queued;
  attempts = 0;
  available_at = now;
  locked_at = none;
  last_error = none;
  updated_at = now;
}

unfoldable pub requeue_failed : String → ℕ → Store → Bool × Store
requeue_failed job_id now jobs =
    (any (requeueable job_id) jobs, update_where (requeueable job_id) (requeued now) jobs)
