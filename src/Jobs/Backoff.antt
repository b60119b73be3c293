-- ===== src/Jobs/Backoff.antt =====
-- What a pass of the worker leaves of the job it ran, and how long a retry waits.
use soulmate.Prelude.{Bool, false, ℕ, String, ◌≡◌, true, Option, none, some, All, if◌then◌else◌}
use Prim.Native.String.{◌++◌ as append}
use soulmate.Exec.{Result, ok, err}
use soulmate.Jobs.Store.{Job, queued, succeeded, failed, Store, has_id, exhausted}
use soulmate.Jobs.Worker.{
  HandlerEnd, returned, raised, cancelled, Failure, base_exception, Outcome, worked,
}

-- What a pass leaves of a job whose handler has returned
abbrev Done : Job → Type 0
Done r = (r.status ≡ succeeded) × (r.locked_at ≡ none)

-- What a pass leaves of a job whose handler has raised an exception, with the time of its retry
abbrev Tried : String → Option ℕ → Job → Type 0
Tried exception retry_at r =
    (r.status ≡ (if exhausted r then failed else queued))
    × (r.locked_at ≡ none)
    × (r.last_error ≡ some (append "Handler failed with " exception))
    × (exhausted r ≡ false → (t : ℕ) → retry_at ≡ some t → r.available_at ≡ t)

-- How a pass ends on a claimed job: `out` is what it returns and leaves, `claimed` the table after
-- the claim. An error of the delay or a `BaseException` leaves the job as it was claimed.
abbrev pub Ended :
    HandlerEnd → Result Failure (Option ℕ) → Job → Store → Result Failure Bool × Store → Type 0
Ended returned retry j claimed out =
    (out.0 ≡ ok true) × All (λ r. has_id j.id r ≡ true → Done r) out.1
Ended cancelled retry j claimed out = (out.0 ≡ err base_exception) × (out.1 ≡ claimed)
Ended (raised exception) (ok retry_at) j claimed out =
    (out.0 ≡ ok true) × All (λ r. has_id j.id r ≡ true → Tried exception retry_at r) out.1
Ended (raised exception) (err e) j claimed out = (out.0 ≡ err e) × (out.1 ≡ claimed)

recorded : Outcome → Result Failure Bool × Store
recorded (r, jobs) = (worked r, jobs)
