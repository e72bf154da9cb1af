-- ===== src/Server/Service/Capacity.antt =====
-- The admission limit of server/src/main.rs over whole runs, and a panic that nobody counts.
use agenc_prover.Base.{
  ◌≤◌, ◌∙◌, ℕ, ◌+◌, ◌<◌, true, false, List, [], ◌∷◌, ◌≡◌, refl, ap, ◌∙◌, some, arith, ◌↔◌, Text,
  ==_iff,
}
use agenc_prover.Prover.Generate
use agenc_prover.Server.Auth.{ProveAuth}
use agenc_prover.Server.Metrics.{record_timeout}
use agenc_prover.Server.Runtime.{
  ExecutionPolicy, Progress, running, panicked, Job, AppState, pending, spawn, metrics,
}
use agenc_prover.Server.Service.{
  take_job, Event, panics, joins, expires, step, run, start, on_expiry, on_panic, on_join, abandon,
  job_panics,
}
use agenc_prover.Server.Service.Invariant.{running_count, IsBalanced, start-IsBalanced}
use agenc_prover.Server.Service.Limit.{run-settings}
use agenc_prover.Server.Runtime.{new_runtime}
use agenc_prover.Server.Service.Endings.{run-IsBalanced}

-- After any events, from the start of the service: the free permits and the running jobs add up to
-- `max_in_flight`, and modulo 2^64 the counters agree: every request has a number and exactly one
-- outcome, every started job is completed, runs, or has panicked without being counted, every
-- completed one is a success, invalid or failed, and the gauge shows the running jobs and those
-- that panicked without being counted.
pub service_accounts :
    (auth : ProveAuth) (policy : ExecutionPolicy) (now now' : ℕ) (es : List Event)
    → IsBalanced (run es (start auth policy now now'))
service_accounts auth policy now now' es =
    run-IsBalanced es (start auth policy now now') (start-IsBalanced auth policy now now')

start-max :
    (auth : ProveAuth) (policy : ExecutionPolicy) (now now' : ℕ)
    → (start auth policy now now').prove_runtime.max_in_flight ≡ policy.max_in_flight
unfolding start new_runtime
start-max auth policy now now' = refl

pub run-max :
    (auth : ProveAuth) (policy : ExecutionPolicy) (now now' : ℕ) (es : List Event)
    → (run es (start auth policy now now')).prove_runtime.max_in_flight ≡ policy.max_in_flight
run-max auth policy now now' es =
    ap (λ x. x.1.0) (run-settings es (start auth policy now now')) ∙ start-max auth policy now now'

-- In every state that the service can reach, at most the configured number of jobs are running, and
-- a converted request is given to a new job exactly when fewer than that number are running.
pub spawn_iff :
    (auth : ProveAuth) (policy : ExecutionPolicy) (now now' : ℕ) (es : List Event) (id : ℕ)
    (fixed : Generate.ProveRequest)
    → let s = run es (start auth policy now now') in
      (running_count s.jobs ≤ policy.max_in_flight)
      × (((spawn s id fixed).1 ≡ pending) ↔ (running_count s.jobs < policy.max_in_flight))
unfolding spawn
spawn_iff auth policy now now' es id fixed =
    let h = (service_accounts auth policy now now' es).permits in
    let m = run-max auth policy now now' es in (omega arith, ground arith)

pub take_job-first :
    (j : Job) (others : List Job) → take_job j.request_id (j ∷ others) ≡ some (j, others)
unfolding take_job
take_job-first j others = rw ((==_iff j.request_id j.request_id).1 refl) refl

-- A job that is still waited for, and a job whose handler has given up.
abbrev awaited_job : ℕ → Generate.ProveRequest → Progress → Job
awaited_job id fixed p = record { request_id = id; fixed = fixed; progress = p; awaited = true }

abbrev left_job : ℕ → Generate.ProveRequest → Progress → Job
left_job id fixed p = record { request_id = id; fixed = fixed; progress = p; awaited = false }

-- When the handler's time is over while its job runs, and the job then panics, the permit is free
-- again, but no counter changes after the timeout, whatever the handler's wait would have given:
-- neither the completed nor the failed jobs go up, and `proofs_in_flight` does not go down.
pub late_panic_uncounted :
    (s : AppState) (id : ℕ) (fixed : Generate.ProveRequest) (others : List Job) (join_error : Text)
    → take_job id s.jobs
      ≡ some (record { request_id = id; fixed = fixed; progress = running; awaited = true }, others)
    → let s' = run (expires id ∷ panics id ∷ joins id join_error ∷ []) s in
      (s'.prove_runtime.available ≡ s.prove_runtime.available + 1)
      × (metrics s' ≡ record_timeout (metrics s))
unfolding run step on_expiry on_panic on_join abandon job_panics
late_panic_uncounted s id fixed others join_error e =
    let s₁ = (on_expiry s (some (awaited_job id fixed running, others))).0 in
    let s₂ = (on_panic s₁ (some (left_job id fixed running, others))).0 in
    let e₁ : (step (expires id) s).0 ≡ s₁ = ap (λ o. (on_expiry s o).0) e in
    let e₂ : (step (panics id) s₁).0 ≡ s₂ =
      ap (λ o. (on_panic s₁ o).0) (take_job-first (left_job id fixed running) others) in
    let e₃ : (step (joins id join_error) s₂).0 ≡ s₂ =
      ap (λ o. (on_join s₂ join_error o).0) (take_job-first (left_job id fixed panicked) others) in
    let all =
      ap (λ t. (step (joins id join_error) ((step (panics id) t).0)).0) e₁
      ∙ ap (λ t. (step (joins id join_error) t).0) e₂
      ∙ e₃ in
    (ap (λ t. t.prove_runtime.available) all, ap metrics all)
