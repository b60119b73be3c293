-- ===== src/Jobs/Tests.antt =====
-- Runs of the queue and of the worker, and the theorems at concrete inputs.
use soulmate.Prelude.{
  ◌≡◌, ◌≢◌, refl, some, none, [], ◌∷◌, All, find, filter, insert_by, sort_by, update_where, arith,
}
use soulmate.Exec.{ok}
use soulmate.Float.{pos, lt_float}
use soulmate.Float.Arith.{mul_float, float_of_nat, min_float, nearest, round_size}
use soulmate.Jobs.Store.{
  Job, queued, running, failed, Store, get, enqueue, claim_next, claimable, candidate,
  take_candidate, requeue_failed,
}
use soulmate.Jobs.Worker.{
  returned, DurableJobWorker, process_once, retry_time, retry_delay, total_seconds,
  delta_of_seconds,
}
use soulmate.Jobs.Budget.{IsSound, Reach-IsSound, process_once-Reach}
use soulmate.Jobs.Lease
use soulmate.Jobs.Exclusion.{claim_exclusive}

abbrev extract : Job
extract = record {
  id = "job_1";
  job_type = "extract";
  payload = "{}";
  status = queued;
  attempts = 0;
  max_attempts = 2;
  available_at = 10;
  created_at = 5;
  updated_at = 5;
  locked_at = none;
  last_error = none;
}

abbrev rebuild : Job
rebuild = record extract { id = "job_2"; available_at = 8; job_type = "rebuild" }

abbrev queue : Store
queue = extract ∷ rebuild ∷ []

abbrev worker : DurableJobWorker
worker = record {
  job_types = "extract" ∷ "rebuild" ∷ [];
  lease_timeout = 300;
  retry_delays = λ t. some (pos 4000000);
  max_retry_delay = pos 50000000;
}

abbrev started : Job
started = record rebuild {
  status = running;
  attempts = 1;
  locked_at = some 1000;
  updated_at = 1000;
}

abbrev claimed : Store
claimed = (claim_next 1000 700 ("extract" ∷ "rebuild" ∷ []) queue).1

claims_oldest : (claim_next 1000 700 ("extract" ∷ "rebuild" ∷ []) queue).0 ≡ some started
unfolding claim_next take_candidate candidate claimable update_where filter sort_by insert_by
claims_oldest = refl

claims_next :
    (claim_next 1100 800 ("extract" ∷ "rebuild" ∷ []) claimed).0
    ≡ some (record extract {
      status = running;
      attempts = 1;
      locked_at = some 1100;
      updated_at = 1100;
    })
unfolding claim_next take_candidate candidate claimable update_where filter sort_by insert_by
claims_next = refl

gives_up :
    get "job_1"
      (claim_next 1000 700
        ("rebuild" ∷ [])
        (record extract { status = running; attempts = 2; locked_at = some 600 } ∷ [])).1
    ≡ some (record extract {
      status = failed;
      attempts = 2;
      updated_at = 1000;
      last_error = some "Worker interrupted during final attempt";
    })
unfolding get find claim_next take_candidate candidate claimable update_where filter sort_by
    insert_by
gives_up = refl

requeues :
    (requeue_failed "job_1" 20 (record extract { status = failed; attempts = 2 } ∷ [])).1
    ≡ record extract { available_at = 20; updated_at = 20 } ∷ []
unfolding requeue_failed update_where
requeues = refl

refuses_twice : (enqueue extract queue).1 ≡ queue
unfolding enqueue
refuses_twice = refl

-- Sixteen seconds after the third attempt
waits : retry_time worker (record extract { attempts = 3 }) 100 ≡ ok (some 16000100)
unfolding retry_time retry_delay delta_of_seconds total_seconds mul_float float_of_nat min_float
    lt_float nearest round_size
waits = refl

-- Fifty seconds at most
waits_longest : retry_time worker (record extract { attempts = 9 }) 100 ≡ ok (some 50000100)
unfolding retry_time retry_delay delta_of_seconds total_seconds mul_float float_of_nat min_float
    lt_float nearest round_size
waits_longest = refl

claim_exclusive_example : extract.id ≢ rebuild.id
claim_exclusive_example =
    claim_exclusive 1000 1100 700 800 ("extract" ∷ "rebuild" ∷ []) ("extract" ∷ "rebuild" ∷ [])
      queue claimed started
      (record extract { status = running; attempts = 1; locked_at = some 1100; updated_at = 1100 })
      (refl, (refl, tt)) claims_oldest Lease.here (ground arith) claims_next

Reach-IsSound_example : All IsSound (process_once worker (λ t p. returned) 1000 1010 queue).1
Reach-IsSound_example =
    Reach-IsSound (process_once-Reach worker (λ t p. returned) 1000 1010 queue)
      ((ground arith, refl), ((ground arith, refl), tt))

abbrev worn : Store
worn = record extract { attempts = 1024; max_attempts = 2000 } ∷ []
