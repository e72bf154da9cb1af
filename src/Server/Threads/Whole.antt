-- ===== src/Server/Threads/Whole.antt =====
-- server/src/main.rs: turns of one request with no other between them, against the steps of the
-- handler and of a job that the service is otherwise described by.
use agenc_prover.Base.{
  ℕ, zero, suc, ◌-◌, Bool, true, false, List, ◌∷◌, Option, none, some, Text, Result, ok, err, panic,
  leb, ◌≡◌, refl, if◌then◌else◌,
}
use agenc_prover.Prover.Generate
use agenc_prover.Prover.Generate.{ProveResponse, ProveError}
use agenc_prover.Server.Errors.{AppError}
use agenc_prover.Server.Request.{ProveRequest, try_into_fixed}
use agenc_prover.Server.Auth.{ProveAuth, authorize}
use agenc_prover.Server.RateLimit.{RateLimiter, RateLimitBucket, check}
use agenc_prover.Server.Metrics.{
  record_overloaded, record_proof_job_started, record_proof_job_failed, record_proof_job_finished,
  count_started, gauge_up, gauge_down, count_completed, count_failed, add_duration, count_duration,
  record_request_received, next_request_id,
}
use agenc_prover.Server.Runtime.{
  ProveRuntime, AppState, Job, Answer, pending, failure, running, panicked, arrive, authorized,
  limit, convert, spawn, saturated,
}
use agenc_prover.Server.Service.{on_return, on_panic, on_join, job_returns, job_panics, drop_job}
use agenc_prover.Server.Threads.{
  rule, judge, acquire, accept, handle, work, take_turn, Pc, handling, entered, awaited, alone,
  delivered, crashed, settled, lost, Turn, goes, works, returns, panics, working, permitted,
  turned_away,
}

-- The same turn again and again, until the request cannot take it, `n` times at most.
unfoldable pub uninterrupted : ℕ → ProveAuth → Turn → ProveRuntime × Pc → ProveRuntime × Pc
uninterrupted zero auth turn x = x
uninterrupted (suc n) auth turn (r, p) = elim (take_turn auth r p turn) [
  | none ↦ (r, p)
  | some x ↦ uninterrupted n auth turn x
]

-- What the handler has done at its end, or at its wait for a new job.
unfoldable pub outcome : AppState → ProveRuntime × Pc → AppState × Answer
outcome s (r, settled a) = (record s { prove_runtime = r }, a)
outcome s (r, awaited (working request_id fixed)) = (
  record s {
    prove_runtime = r;
    jobs =
        record { request_id = request_id; fixed = fixed; progress = running; awaited = true }
        ∷ s.jobs;
  },
  pending,
)
outcome s (r, p) = (record s { prove_runtime = r }, pending)

module _ (s : AppState) (now later : ℕ) where
  -- The rest of the handler, at most that many turns.
  rest : ℕ → ProveRuntime × Pc → AppState × Answer
  rest n x = outcome s (uninterrupted n s.prove_auth (goes now later) x)

  acquired-rest :
      (r : ProveRuntime) (id : ℕ) (fixed : Generate.ProveRequest) (b : Bool)
      → rest 11 (
          if b
          then (r, handling (turned_away (saturated r)))
          else (record r { available = r.available - 1 }, handling (permitted id fixed)))
        ≡ (if b
            then (
              record s {
                prove_runtime = record r { observability = record_overloaded r.observability };
              },
              failure (saturated r),
            )
            else (
              record s {
                prove_runtime = record r {
                  available = r.available - 1;
                  observability = record_proof_job_started r.observability;
                };
                jobs =
                    record { request_id = id; fixed = fixed; progress = running; awaited = true }
                    ∷ s.jobs;
              },
              pending,
            ))
  unfolding rest uninterrupted outcome take_turn handle record_proof_job_started count_started
      gauge_up
  acquired-rest r id fixed true = refl
  acquired-rest r id fixed false = refl

  accept-rest :
      (r : ProveRuntime) (id : ℕ) (x : Result Generate.ProveRequest AppError)
      → rest 11 (accept r id x) ≡ convert (record s { prove_runtime = r }) id x
  unfolding rest uninterrupted outcome take_turn accept acquire convert spawn
  accept-rest r id (ok fixed) = acquired-rest r id fixed (leb r.available 0)
  accept-rest r id (err e) = refl
  accept-rest r id panic = refl

  rule-rest :
      (r : ProveRuntime) (id : ℕ) (request : ProveRequest)
      (x : RateLimiter × Result (Unit {0}) AppError)
      → rest 12 (rule r id request x) ≡ limit (record s { prove_runtime = r }) id request x
  unfolding rest uninterrupted outcome take_turn handle rule limit
  rule-rest r id request (l, ok _) = accept-rest _ id (try_into_fixed request)
  rule-rest r id request (l, err e) = refl
  rule-rest r id request (l, panic) = refl

  judge-rest :
      (r : ProveRuntime) (id : ℕ) (request : ProveRequest) (b : Result RateLimitBucket AppError)
      → rest 12 (judge r id request now later b)
        ≡ authorized (record s { prove_runtime = r }) id request now later b
  unfolding rest uninterrupted outcome take_turn judge authorized
  judge-rest r id request (ok bucket) =
      rule-rest r id request (check r.rate_limiter bucket now later)
  judge-rest r id request (err e) = refl
  judge-rest r id request panic = refl

-- The handler of a request that no other turn interrupts changes the runtime, starts the job and gives
-- the answer that `arrive` does, in at most fifteen turns.
pub uninterrupted-arrive :
    (s : AppState) (header : Option Text) (request : ProveRequest) (now later : ℕ)
    → outcome s (
        uninterrupted 15 s.prove_auth
          (goes now later)
          (s.prove_runtime, handling (entered header request)))
      ≡ arrive s header request now later
unfolding rest uninterrupted take_turn handle arrive next_request_id record_request_received
uninterrupted-arrive s header request now later =
    judge-rest s now later _ _ request (authorize s.prove_auth header)

-- The runtime that a step of a job leaves.
abbrev runtime_of : AppState × Answer → ProveRuntime
runtime_of (s, a) = s.prove_runtime

-- The turns of a task up to its end, with its handler waiting or gone, and those of a handler whose
-- task has panicked, when no other turn interrupts them, leave the runtime that the steps of the
-- job's return, panic and join leave; the last answers what the join answers.
pub uninterrupted-job :
    (s : AppState) (j : Job) (others : List Job) (result : Result ProveResponse ProveError)
    (duration : ℕ) (join_error : Text) (a : Answer) (now later : ℕ)
    → let working_job = record j { progress = running; awaited = true } in
      let panicked_job = record j { progress = panicked; awaited = true } in
      let task = working j.request_id j.fixed in
      let (returned, _) = on_return s (some (working_job, others)) result duration in
      let (crashed_state, _) = on_panic s (some (working_job, others)) in
      let (joined, answer) = on_join s join_error (some (panicked_job, others)) in
      let whole = uninterrupted 7 s.prove_auth in
      let r = s.prove_runtime in
      (whole (works (returns result duration)) (r, awaited task)
        ≡ (returned.prove_runtime, delivered result))
      × (whole (works (returns result duration)) (r, alone a task)
          ≡ (returned.prove_runtime, settled a))
      × (whole (works (panics join_error)) (r, awaited task)
          ≡ (crashed_state.prove_runtime, crashed join_error))
      × (whole (works (panics join_error)) (r, alone a task)
          ≡ (crashed_state.prove_runtime, lost a))
      × (whole (goes now later) (r, crashed join_error) ≡ (joined.prove_runtime, settled answer))
unfolding on_return job_returns on_panic job_panics on_join drop_job uninterrupted take_turn work
    record_proof_job_finished record_proof_job_failed count_completed count_failed add_duration
    count_duration gauge_down
uninterrupted-job s j others result duration join_error a now later = (refl, refl, refl, refl, refl)
