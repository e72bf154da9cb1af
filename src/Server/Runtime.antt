-- ===== src/Server/Runtime.antt =====
-- server/src/main.rs: the state of the service, and the handler of `/prove` up to its first wait.
--
-- The clock is read where the code reads it: its values are arguments.
use agenc_prover.Base.{
  ℕ, ◌-◌, max, Bool, true, List, ◌∷◌, ◌++◌, Option, Text, text, decimal, Result, ok, err, panic,
  leb, if◌then◌else◌,
}
use agenc_prover.Prover.Generate
use agenc_prover.Prover.Generate.{ProveResponse, ProveError}
use agenc_prover.Server.Errors.{AppError, overloaded}
use agenc_prover.Server.Request.{ProveRequest, try_into_fixed}
use agenc_prover.Server.Auth.{ProveAuth, authorize}
use agenc_prover.Server.RateLimit.{
  Duration, from_secs, as_secs, RateLimitPolicy, RateLimiter, RateLimitBucket, check, new_limiter,
}
use agenc_prover.Server.Metrics.{
  Observability, new_observability, next_request_id, record_request_received, record_unauthorized,
  record_bad_request, record_rate_limited, record_overloaded, record_proof_job_started,
}

pub record ExecutionPolicy : Type 0 where
  pub max_in_flight : ℕ
  pub request_timeout : Duration
  pub rate_limit : RateLimitPolicy

-- `ExecutionPolicy::retry_after_seconds`.
unfoldable pub execution_retry_after : ExecutionPolicy → ℕ
execution_retry_after p = max (as_secs p.request_timeout) 1

unfoldable pub resolve_execution_policy : ℕ → ℕ → ℕ → ℕ → ExecutionPolicy
resolve_execution_policy max_in_flight timeout_secs max_requests window_secs = record {
  max_in_flight = max_in_flight;
  request_timeout = from_secs timeout_secs;
  rate_limit = record { max_requests = max_requests; window = from_secs window_secs };
}

-- `available` is the number of free permits of the semaphore.
pub record ProveRuntime : Type 0 where
  pub available : ℕ
  pub max_in_flight : ℕ
  pub request_timeout : Duration
  pub retry_after_seconds : ℕ
  pub rate_limiter : RateLimiter
  pub observability : Observability

-- `ProveRuntime::new`; `now` and `now'` are the clock at the two `Instant::now()`.
unfoldable pub new_runtime : ExecutionPolicy → ℕ → ℕ → ProveRuntime
unfolding execution_retry_after new_limiter new_observability
new_runtime p now now' = record {
  available = p.max_in_flight;
  max_in_flight = p.max_in_flight;
  request_timeout = p.request_timeout;
  retry_after_seconds = execution_retry_after p;
  rate_limiter = new_limiter p.rate_limit now now';
  observability = new_observability;
}

-- What has become of a blocking task.
pub data Progress : Type 0 where
  running : Progress
  returned : Result ProveResponse ProveError → Progress
  panicked : Progress

-- A spawned job; `awaited` says whether its handler still waits for it.
pub record Job : Type 0 where
  pub request_id : ℕ
  pub fixed : Generate.ProveRequest
  pub progress : Progress
  pub awaited : Bool

pub record AppState : Type 0 where
  pub prove_auth : ProveAuth
  pub prove_runtime : ProveRuntime
  pub jobs : List Job

-- What a step answers to a client: nothing yet, or the handler's result.
pub data Answer : Type 0 where
  pending : Answer
  success : ProveResponse → Answer
  failure : AppError → Answer
  aborted : Answer

abbrev pub with_metrics : AppState → Observability → AppState
with_metrics s m = record s { prove_runtime = record s.prove_runtime { observability = m } }

abbrev pub metrics : AppState → Observability
metrics s = s.prove_runtime.observability

unfoldable pub saturated : ProveRuntime → AppError
saturated r =
    overloaded
      (text "prover is saturated: max "
        ++ (decimal r.max_in_flight
            ++ text " in-flight proof request(s); queue policy is fail-fast"))
      r.retry_after_seconds

-- From `try_acquire` to `spawn_blocking`.
unfoldable pub spawn : AppState → ℕ → Generate.ProveRequest → AppState × Answer
unfolding saturated
spawn s request_id fixed =
    let r = s.prove_runtime in
    if leb r.available 0
    then (with_metrics s (record_overloaded (metrics s)), failure (saturated r))
    else (
      record s {
        prove_runtime = record r {
          available = r.available - 1;
          observability = record_proof_job_started r.observability;
        };
        jobs =
            record { request_id = request_id; fixed = fixed; progress = running; awaited = true }
            ∷ s.jobs;
      },
      pending,
    )

unfoldable pub convert : AppState → ℕ → Result Generate.ProveRequest AppError → AppState × Answer
convert s request_id (ok fixed) = spawn s request_id fixed
convert s request_id (err e) = (with_metrics s (record_bad_request (metrics s)), failure e)
convert s request_id panic = (s, aborted)

unfoldable pub limit :
    AppState → ℕ → ProveRequest → RateLimiter × Result (Unit {0}) AppError → AppState × Answer
limit s request_id request (l, answer) =
    let s₁ = record s { prove_runtime = record s.prove_runtime { rate_limiter = l } } in
    elim answer [
      | ok _ ↦ convert s₁ request_id (try_into_fixed request)
      | err e ↦ (with_metrics s₁ (record_rate_limited (metrics s₁)), failure e)
      | panic ↦ (s₁, aborted)
    ]

unfoldable pub authorized :
    AppState
    → ℕ
    → ProveRequest
    → (now later : ℕ) → Result RateLimitBucket AppError
    → AppState × Answer
authorized s request_id request now later (ok bucket) =
    limit s request_id request (check s.prove_runtime.rate_limiter bucket now later)
authorized s request_id request now later (err e) =
    (with_metrics s (record_unauthorized (metrics s)), failure e)
authorized s request_id request now later panic = (s, aborted)

-- The handler from its start to the first wait. `header` is the text of the Authorization header.
unfoldable pub arrive : AppState → Option Text → ProveRequest → (now later : ℕ) → AppState × Answer
unfolding authorized limit convert spawn next_request_id record_request_received
arrive s header request now later =
    let (m, request_id) = next_request_id (metrics s) in
    let s₁ = with_metrics s (record_request_received m) in
    authorized s₁ request_id request now later (authorize s.prove_auth header)
