-- ===== src/Server/Threads.antt =====
-- server/src/main.rs: the handler of `/prove` and its blocking task, one atomic operation at a time.
--
-- A request is served by up to two tasks: the handler, and the blocking task that it spawns. `Pc` says
-- where they are. One turn is one access to shared state: an atomic counter, the limiter under its
-- lock, or the semaphore, with the private computation up to it. The turns of all requests are
-- interleaved in any order.
pub mod Load
pub mod Counters
pub mod Kept
pub mod System
pub mod Rank
pub mod Rest
pub mod Drain
pub mod Whole
pub mod Effects
pub mod Tally
pub mod Refused
mod Tests
pub mod Sound
use agenc_prover.Base.{
  ℕ, zero, suc, ◌+◌, ◌-◌, ◌%◌, ◌/◌, List, [], ◌∷◌, ◌++◌, Option, none, some, Text, text, Result, ok,
  err, panic, leb, if◌then◌else◌, get_elem?, set,
}
use agenc_prover.Prover.Generate
use agenc_prover.Prover.Generate.{ProveResponse, ProveError}
use agenc_prover.Server.Errors.{AppError, internal}
use agenc_prover.Server.Request.{ProveRequest, try_into_fixed}
use agenc_prover.Server.Auth.{ProveAuth, authorize}
use agenc_prover.Server.RateLimit.{RateLimiter, RateLimitBucket, check}
use agenc_prover.Server.Metrics.{
  Observability, u64_mod, fetch_add, fetch_sub, next_request_id, record_request_received,
  record_unauthorized, record_bad_request, record_rate_limited, record_overloaded, record_timeout,
  count_result, count_started, gauge_up, gauge_down, count_completed, count_failed, add_duration,
  count_duration,
}
use agenc_prover.Server.Runtime.{
  ExecutionPolicy, ProveRuntime, new_runtime, Answer, success, failure, aborted, saturated,
}
use agenc_prover.Server.Service.{respond, timed_out}

-- The handler before its only wait, by its next operation.
pub data Handler : Type 0 where
  -- next_request_id
  entered : Option Text → ProveRequest → Handler
  -- record_request_received
  numbered : (request_id : ℕ) → Option Text → ProveRequest → Handler
  -- record_unauthorized, or the limiter
  received : (request_id : ℕ) → Option Text → ProveRequest → Handler
  -- record_rate_limited
  limited : AppError → Handler
  -- record_bad_request, or try_acquire
  admitted : (request_id : ℕ) → ProveRequest → Handler
  -- record_overloaded
  turned_away : AppError → Handler
  -- the two operations of record_proof_job_started
  permitted started : (request_id : ℕ) → Generate.ProveRequest → Handler
  -- spawn_blocking
  counted : (request_id : ℕ) → Generate.ProveRequest → Handler

-- The blocking task, by its next operation.
pub data Task : Type 0 where
  -- prove_fn
  working : (request_id : ℕ) → Generate.ProveRequest → Task
  -- the five operations of record_proof_job_finished
  ended completed : Result ProveResponse ProveError → (duration : ℕ) → Task
  measured timed classified : Result ProveResponse ProveError → Task
  -- the drop of the permit, after a return and after a panic
  finished : Result ProveResponse ProveError → Task
  unwinding : (join_error : Text) → Task

-- A request: its handler alone, both tasks, the task alone, or what is left to do at their end.
pub data Pc : Type 0 where
  handling : Handler → Pc
  awaited : Task → Pc
  -- the client has its answer, or is gone
  alone : Answer → Task → Pc
  -- the task has ended, and the handler still waits
  delivered : Result ProveResponse ProveError → Pc
  crashed : (join_error : Text) → Pc
  -- the last two operations of record_proof_job_failed
  join_counted join_classified : AppError → Pc
  -- the end; `lost` after a panic that nobody waits for
  settled lost : Answer → Pc

-- How `prove_fn` ends.
pub data Outcome : Type 0 where
  returns : Result ProveResponse ProveError → (duration : ℕ) → Outcome
  panics : (join_error : Text) → Outcome

-- Who takes the turn: the handler, the task, the timer or the client. The clock and the end of
-- `prove_fn` are the environment's choice; only the operations that ask for them read them.
pub data Turn : Type 0 where
  goes : (now later : ℕ) → Turn
  works : Outcome → Turn
  expires disconnects : Turn

abbrev pub observe : ProveRuntime → (Observability → Observability) → ProveRuntime
observe r f = record r { observability = f r.observability }

abbrev pub release : ProveRuntime → ProveRuntime
release r = record r { available = r.available + 1 }

-- After the limiter's verdict.
unfoldable pub rule :
    ProveRuntime → ℕ → ProveRequest → RateLimiter × Result (Unit {0}) AppError → ProveRuntime × Pc
rule r request_id request (l, ok _) =
    (record r { rate_limiter = l }, handling (admitted request_id request))
rule r request_id request (l, err e) = (record r { rate_limiter = l }, handling (limited e))
rule r request_id request (l, panic) = (record r { rate_limiter = l }, settled aborted)

-- After `authorize`.
unfoldable pub judge :
    ProveRuntime
    → ℕ
    → ProveRequest
    → (now later : ℕ) → Result RateLimitBucket AppError
    → ProveRuntime × Pc
judge r request_id request now later (ok bucket) =
    rule r request_id request (check r.rate_limiter bucket now later)
judge r request_id request now later (err e) = (observe r record_unauthorized, settled (failure e))
judge r request_id request now later panic = (r, settled aborted)

-- `try_acquire`.
unfoldable pub acquire : ProveRuntime → ℕ → Generate.ProveRequest → ProveRuntime × Pc
acquire r request_id fixed =
    if leb r.available 0
    then (r, handling (turned_away (saturated r)))
    else (record r { available = r.available - 1 }, handling (permitted request_id fixed))

-- After `try_into_fixed`.
unfoldable pub accept : ProveRuntime → ℕ → Result Generate.ProveRequest AppError → ProveRuntime × Pc
accept r request_id (ok fixed) = acquire r request_id fixed
accept r request_id (err e) = (observe r record_bad_request, settled (failure e))
accept r request_id panic = (r, settled aborted)

-- The handler's next operation.
unfoldable pub handle : ProveAuth → ProveRuntime → Handler → (now later : ℕ) → ProveRuntime × Pc
handle auth r (entered header request) now later =
    let (m, request_id) = next_request_id r.observability in
    (record r { observability = m }, handling (numbered request_id header request))
handle auth r (numbered request_id header request) now later =
    (observe r record_request_received, handling (received request_id header request))
handle auth r (received request_id header request) now later =
    judge r request_id request now later (authorize auth header)
handle auth r (limited e) now later = (observe r record_rate_limited, settled (failure e))
handle auth r (admitted request_id request) now later = accept r request_id (try_into_fixed request)
handle auth r (turned_away e) now later = (observe r record_overloaded, settled (failure e))
handle auth r (permitted request_id fixed) now later =
    (observe r count_started, handling (started request_id fixed))
handle auth r (started request_id fixed) now later =
    (observe r gauge_up, handling (counted request_id fixed))
handle auth r (counted request_id fixed) now later = (r, awaited (working request_id fixed))

-- What becomes of a task in a turn: it goes on, leaves a result, or is gone after a panic.
pub data Progress : Type 0 where
  still : Task → Progress
  left : Result ProveResponse ProveError → Progress
  gone : (join_error : Text) → Progress

-- The task's next operation.
unfoldable pub work : ProveRuntime → Task → Outcome → ProveRuntime × Progress
work r (working _ fixed) (returns result duration) = (r, still (ended result duration))
work r (working _ fixed) (panics join_error) = (r, still (unwinding join_error))
work r (ended result duration) _ = (observe r count_completed, still (completed result duration))
work r (completed result duration) _ = (observe r (add_duration duration), still (measured result))
work r (measured result) _ = (observe r count_duration, still (timed result))
work r (timed result) _ = (observe r (λ m. count_result m result), still (classified result))
work r (classified result) _ = (observe r gauge_down, still (finished result))
work r (finished result) _ = (release r, left result)
work r (unwinding join_error) _ = (release r, gone join_error)

abbrev pub join_failure : Text → AppError
join_failure join_error = internal (text "prover task join failed: " ++ join_error)

abbrev pub awaited_after : Progress → Pc
awaited_after (still task) = awaited task
awaited_after (left result) = delivered result
awaited_after (gone join_error) = crashed join_error

abbrev pub alone_after : Answer → Progress → Pc
alone_after a (still task) = alone a task
alone_after a (left result) = settled a
alone_after a (gone join_error) = lost a

abbrev pub after_work : (Progress → Pc) → ProveRuntime × Progress → ProveRuntime × Pc
after_work after (r, p) = (r, after p)

-- One turn of a request; `none` when it is not possible.
unfoldable pub take_turn : ProveAuth → ProveRuntime → Pc → Turn → Option (ProveRuntime × Pc)
take_turn auth r (handling h) (goes now later) = some (handle auth r h now later)
take_turn auth r (awaited task) (works outcome) =
    some (after_work awaited_after (work r task outcome))
take_turn auth r (awaited task) expires =
    some (observe r record_timeout, alone (failure (timed_out r)) task)
take_turn auth r (awaited task) disconnects = some (r, alone aborted task)
take_turn auth r (alone a task) (works outcome) =
    some (after_work (alone_after a) (work r task outcome))
take_turn auth r (delivered result) (goes now later) = some (r, settled (respond result))
take_turn auth r (delivered result) expires =
    some (observe r record_timeout, settled (failure (timed_out r)))
take_turn auth r (delivered result) disconnects = some (r, settled aborted)
take_turn auth r (crashed join_error) (goes now later) =
    some (observe r count_completed, join_counted (join_failure join_error))
take_turn auth r (crashed join_error) expires =
    some (observe r record_timeout, lost (failure (timed_out r)))
take_turn auth r (crashed join_error) disconnects = some (r, lost aborted)
take_turn auth r (join_counted e) (goes now later) =
    some (observe r count_failed, join_classified e)
take_turn auth r (join_classified e) (goes now later) =
    some (observe r gauge_down, settled (failure e))
take_turn auth r pc turn = none
