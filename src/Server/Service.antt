-- ===== src/Server/Service.antt =====
-- server/src/main.rs: the handler of `/prove` and its background jobs as a state machine.
--
-- One event is one uninterrupted piece of the code: the handler up to `spawn_blocking`, the end of
-- a job, and the ways in which the wait for a job ends. The clock, the order of events and what
-- `prove_fn` returns are chosen by the environment.
pub mod Accounts
pub mod Invariant
pub mod Arrival
pub mod Endings
pub mod Limit
pub mod Order
pub mod Capacity
pub mod Ready
pub mod Jobs
pub mod Origin
pub mod Delivery
pub mod Proofs
mod ProofTests
pub mod Asked
pub mod Rate
pub mod Denials
pub mod Refusals
mod Tests
use agenc_prover.Base.{
  ℕ, ◌+◌, ◌-◌, false, List, [], ◌∷◌, ◌++◌, Option, none, some, Text, text, decimal, Result, ok, err,
  panic, ◌==◌, if◌then◌else◌,
}
use agenc_prover.Prover.Generate
use agenc_prover.Prover.Generate.{ProveResponse, ProveError, invalid_request, display_prove_error}
use agenc_prover.Server.Errors.{AppError, bad_request, internal, timeout}
use agenc_prover.Server.Request.{ProveRequest}
use agenc_prover.Server.Auth.{ProveAuth}
use agenc_prover.Server.RateLimit.{as_secs}
use agenc_prover.Server.Metrics.{record_timeout, record_proof_job_failed, record_proof_job_finished}
use agenc_prover.Server.Runtime.{
  ExecutionPolicy, ProveRuntime, new_runtime, Job, AppState, Answer, with_metrics, metrics, arrive,
  running, returned, panicked, pending, success, failure, aborted,
}

-- The first job of that id, and the others.
unfoldable pub take_job : ℕ → List Job → Option (Job × List Job)
take_job request_id [] = none
take_job request_id (j ∷ js) =
    let rest = take_job request_id js in
    if j.request_id == request_id
    then some (j, js)
    else elim rest [ none ↦ none | some (k, others) ↦ some (k, j ∷ others) ]

-- The end of a blocking task: a result is recorded, a panic is not; both drop the permit. A task
-- that nobody waits for is gone, unless it panicked: such a job is kept, as one whose end no
-- counter shows.

-- The body of `spawn_blocking` after `prove_fn` has returned.
unfoldable pub job_returns :
    AppState → Job → List Job → Result ProveResponse ProveError → ℕ → AppState
job_returns s j others result duration =
    let m = record_proof_job_finished (metrics s) result duration in
    let r = s.prove_runtime in
    record s {
      prove_runtime = record r { available = r.available + 1; observability = m };
      jobs = if j.awaited then record j { progress = returned result } ∷ others else others;
    }

-- A panic of `prove_fn` unwinds past the recording.
unfoldable pub job_panics : AppState → Job → List Job → AppState
job_panics s j others =
    let r = s.prove_runtime in
    record s {
      prove_runtime = record r { available = r.available + 1 };
      jobs = record j { progress = panicked } ∷ others;
    }

-- What the handler makes of a result.
unfoldable pub respond : Result ProveResponse ProveError → Answer
respond (ok response) = success response
respond (err (invalid_request message)) = failure (bad_request message)
respond (err e) = failure (internal (display_prove_error e))
respond panic = aborted

unfoldable pub timed_out : ProveRuntime → AppError
timed_out r =
    timeout
      (text "proof request exceeded "
        ++ (decimal (as_secs r.request_timeout)
            ++ text " seconds; retry after the current in-flight work settles"))
      r.retry_after_seconds

pub data Event : Type 0 where
  arrives : Option Text → ProveRequest → (now later : ℕ) → Event
  returns : (request_id : ℕ) → Result ProveResponse ProveError → (duration : ℕ) → Event
  panics : (request_id : ℕ) → Event
  joins : (request_id : ℕ) (join_error : Text) → Event
  expires : (request_id : ℕ) → Event
  disconnects : (request_id : ℕ) → Event

-- A running job that ends by itself.
unfoldable pub on_return :
    AppState → Option (Job × List Job) → Result ProveResponse ProveError → ℕ → AppState × Answer
unfolding job_returns
on_return s none result duration = (s, pending)
on_return s (some (j, others)) result duration = elim j.progress [
  | running ↦ (job_returns s j others result duration, pending)
  | returned _ ↦ (s, pending)
  | panicked ↦ (s, pending)
]

unfoldable pub on_panic : AppState → Option (Job × List Job) → AppState × Answer
unfolding job_panics
on_panic s none = (s, pending)
on_panic s (some (j, others)) = elim j.progress [
  | running ↦ (job_panics s j others, pending)
  | returned _ ↦ (s, pending)
  | panicked ↦ (s, pending)
]

unfoldable pub drop_job : AppState → List Job → AppState
drop_job s others = record s { jobs = others }

-- `timeout(...).await` with `Ok(joined)`: the task has ended within the time limit.
unfoldable pub on_join : AppState → Text → Option (Job × List Job) → AppState × Answer
unfolding drop_job
on_join s join_error none = (s, pending)
on_join s join_error (some (j, others)) =
    if j.awaited
    then elim j.progress [
      | running ↦ (s, pending)
      | returned result ↦ (drop_job s others, respond result)
      | panicked ↦ (
        with_metrics (drop_job s others) (record_proof_job_failed (metrics s)),
        failure (internal (text "prover task join failed: " ++ join_error)),
      )
    ]
    else (s, pending)

-- The handler stops waiting for a job; a result that is there already is dropped with its handle.
unfoldable abandon : AppState → Job → List Job → AppState
abandon s j others = elim j.progress [
  | running ↦ record s { jobs = record j { awaited = false } ∷ others }
  | returned _ ↦ record s { jobs = others }
  | panicked ↦ record s { jobs = record j { awaited = false } ∷ others }
]

-- `Err(_)` of the same await: the time is over.
unfoldable on_expiry : AppState → Option (Job × List Job) → AppState × Answer
unfolding abandon timed_out
on_expiry s none = (s, pending)
on_expiry s (some (j, others)) =
    if j.awaited
    then (
      with_metrics (abandon s j others) (record_timeout (metrics s)),
      failure (timed_out s.prove_runtime),
    )
    else (s, pending)

-- The client closes the connection, so the handler is dropped in its await.
unfoldable on_disconnect : AppState → Option (Job × List Job) → AppState × Answer
unfolding abandon
on_disconnect s none = (s, pending)
on_disconnect s (some (j, others)) =
    if j.awaited then (abandon s j others, pending) else (s, pending)

unfoldable pub step : Event → AppState → AppState × Answer
unfolding on_return on_panic on_join on_expiry on_disconnect
step (arrives header request now later) s = arrive s header request now later
step (returns request_id result duration) s =
    on_return s (take_job request_id s.jobs) result duration
step (panics request_id) s = on_panic s (take_job request_id s.jobs)
step (joins request_id join_error) s = on_join s join_error (take_job request_id s.jobs)
step (expires request_id) s = on_expiry s (take_job request_id s.jobs)
step (disconnects request_id) s = on_disconnect s (take_job request_id s.jobs)

-- The state after a sequence of events.
unfoldable pub run : List Event → AppState → AppState
run [] s = s
run (e ∷ es) s = let (s₁, _) = step e s in run es s₁

-- `app` with a new runtime: nothing has happened.
unfoldable pub start : ProveAuth → ExecutionPolicy → (now now' : ℕ) → AppState
unfolding new_runtime
start auth policy now now' = record {
  prove_auth = auth;
  prove_runtime = new_runtime policy now now';
  jobs = [];
}
