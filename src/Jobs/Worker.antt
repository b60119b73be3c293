-- ===== src/Jobs/Worker.antt =====
-- `DurableJobWorker`. The clock is read when the job is claimed and when its handler has ended.
-- The handlers are a parameter: how a handler ends on a payload.
use Prim.Native.String.{◌++◌ as append}
use soulmate.Prelude.{
  ◌≡◌, refl, ℕ, suc, ◌+◌, ◌-◌, ◌*◌, ◌/◌, ◌^◌, String, Bool, true, false, Option, none, some, List,
  if◌then◌else◌, leb, ltb,
}
use soulmate.Exec.{Result, ok, err, bind}
use soulmate.Float.{ℤ, pos, negsuc, Float, nan, num}
use soulmate.Float.Arith.{
  signed, size, is_negative, is_infinite, nearest, round_size, float_of_nat, mul_float, min_float,
}
use soulmate.Jobs.Store.{Job, Error, Store, claim_next, mark_succeeded, mark_failed}

-- How `await handler(payload)` ends: it returns, raises an `Exception` of this name, or raises
-- another `BaseException`, as a task that is cancelled does.
pub data HandlerEnd : Type 0 where
  returned cancelled : HandlerEnd
  raised : String → HandlerEnd

-- What `process_once` raises: an error of the repository, an `OverflowError` of the delay, or what
-- the handler has raised that is no `Exception`
pub data Failure : Type 0 where
  repository : Error → Failure
  overflow_error base_exception : Failure

-- A `timedelta`, in microseconds
abbrev pub TimeDelta : Type 0
TimeDelta = ℤ

pub record DurableJobWorker : Type 0 where
  pub job_types : List String
  pub lease_timeout : ℕ
  pub retry_delays : String → Option TimeDelta
  pub max_retry_delay : TimeDelta

-- `d.total_seconds()`, the float nearest to the quotient
unfoldable pub total_seconds : TimeDelta → Float
unfolding round_size
total_seconds d = num (signed (is_negative d) (round_size (size d * 2 ^ 1074) 1000000))

-- A `timedelta` has less than 10 ^ 9 days in either direction.
abbrev longest_delta : ℕ
longest_delta = 999999999 * 86400000000

abbrev as_delta : Bool → ℕ → Result Failure TimeDelta
as_delta false n = if ltb n (longest_delta + 86400000000) then ok (pos n) else err overflow_error
as_delta true n = if leb n longest_delta then ok (signed true n) else err overflow_error

-- The microseconds of a size in units of 2 ^ -1074 seconds: the fraction is multiplied as a float,
-- and the sum is rounded to the nearest whole number, to even on a tie.
abbrev microseconds : ℕ → ℕ
microseconds n =
    let whole = n / 2 ^ 1074 in
    nearest (whole * 1000000 * 2 ^ 1074 + round_size ((n - whole * 2 ^ 1074) * 1000000) 1)
      (2 ^ 1074)

-- `timedelta(seconds=x)`; an infinite one is an `OverflowError`, and `nan` does not occur.
unfoldable pub delta_of_seconds : Float → Result Failure TimeDelta
unfolding nearest round_size
delta_of_seconds nan = err overflow_error
delta_of_seconds (num a) =
    if is_infinite a then err overflow_error else as_delta (is_negative a) (microseconds (size a))

-- The microseconds of `datetime.max`
abbrev last_instant : ℕ
last_instant = 3652059 * 86400000000 - 1

-- `t + d`, where instants count from `datetime.min`
abbrev add_delta : ℕ → TimeDelta → Result Failure ℕ
add_delta t (pos n) = if leb (t + n) last_instant then ok (t + n) else err overflow_error
add_delta t (negsuc n) = if ltb n t then ok (t - suc n) else err overflow_error

-- `delay_seconds`. The power of two is an `int`, of which 2 ^ 1024 and more are no floats.
unfoldable pub retry_delay : DurableJobWorker → TimeDelta → ℕ → Result Failure Float
unfolding total_seconds mul_float float_of_nat min_float
retry_delay w initial_delay attempts =
    if leb 1024 (attempts - 1)
    then err overflow_error
    else ok (
        min_float (mul_float (total_seconds initial_delay) (float_of_nat (2 ^ (attempts - 1))))
          (total_seconds w.max_retry_delay))

abbrev delayed : DurableJobWorker → ℕ → ℕ → Option TimeDelta → Result Failure (Option ℕ)
delayed w attempts failed_at none = ok none
delayed w attempts failed_at (some initial_delay) =
    bind (retry_delay w initial_delay attempts)
      λ delay. bind (delta_of_seconds delay) λ d. bind (add_delta failed_at d) λ t. ok (some t)

-- `retry_at`
unfoldable pub retry_time : DurableJobWorker → Job → ℕ → Result Failure (Option ℕ)
unfolding retry_delay delta_of_seconds
retry_time w job failed_at = delayed w job.attempts failed_at (w.retry_delays job.job_type)

abbrev pub Outcome : Type 0
Outcome = Result Failure (Unit {0}) × Store

abbrev pub stored : Result Error (Unit {0}) × Store → Outcome
stored (ok done, jobs) = (ok done, jobs)
stored (err e, jobs) = (err (repository e), jobs)

pub stored_keeps : (r : Result Error (Unit {0}) × Store) → (stored r).1 ≡ r.1
stored_keeps (ok done, jobs) = refl
stored_keeps (err e, jobs) = refl

abbrev pub failed_with : Job → String → ℕ → Store → Result Failure (Option ℕ) → Outcome
failed_with job exception ended_at jobs (err e) = (err e, jobs)
failed_with job exception ended_at jobs (ok retry_at) =
    stored (mark_failed job.id (append "Handler failed with " exception) ended_at retry_at jobs)

unfoldable pub record_result : DurableJobWorker → Job → HandlerEnd → ℕ → Store → Outcome
unfolding retry_time
record_result w job returned ended_at jobs = stored (mark_succeeded job.id ended_at jobs)
record_result w job cancelled ended_at jobs = (err base_exception, jobs)
record_result w job (raised exception) ended_at jobs =
    failed_with job exception ended_at jobs (retry_time w job ended_at)

abbrev pub worked : Result Failure (Unit {0}) → Result Failure Bool
worked (ok done) = ok true
worked (err e) = err e

module _ (w : DurableJobWorker) (handle : String → String → HandlerEnd) where
  -- What follows the claim: `false` if nothing was claimed.
  unfoldable pub run_claimed : Option Job → ℕ → Store → Result Failure Bool × Store
  unfolding record_result
  run_claimed none ended_at jobs = (ok false, jobs)
  run_claimed (some job) ended_at jobs =
      let (r, after) = record_result w job (handle job.job_type job.payload) ended_at jobs in
      (worked r, after)

  unfoldable pub process_once : ℕ → ℕ → Store → Result Failure Bool × Store
  unfolding run_claimed
  process_once now ended_at jobs =
      let (job, claimed) = claim_next now (now - w.lease_timeout) w.job_types jobs in
      run_claimed job ended_at claimed
