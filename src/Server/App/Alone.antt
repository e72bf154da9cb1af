-- ===== src/Server/App/Alone.antt =====
-- server/src/main.rs: a request to `/prove` that is served by itself, from its arrival to its answer.
use agenc_prover.Base.{
  ℕ, ◌+◌, ◌-◌, Bool, true, false, List, [], ◌∷◌, Option, some, Text, Result, ok, err, panic, leb,
  ◌≡◌, ◌≢◌, refl, ap, sym, ◌∙◌, arith, if◌then◌else◌,
}
use mathlib.Core.Path.{subst}
use agenc_prover.Prover.Generate
use agenc_prover.Prover.Generate.{ProveResponse, ProveError}
use agenc_prover.Server.Auth.{authorize}
use agenc_prover.Server.Errors.{AppError}
use agenc_prover.Server.RateLimit.{RateLimiter, RateLimitBucket}
use agenc_prover.Server.Metrics.{record_overloaded, record_proof_job_started}
use agenc_prover.Server.Request.{ProveRequest, try_into_fixed}
use agenc_prover.Server.Runtime.{
  AppState, Job, Answer, pending, failure, running, returned, panicked, arrive, authorized, limit,
  convert, spawn, with_metrics, metrics, saturated,
}
use agenc_prover.Server.Service.Capacity.{take_job-first}
use agenc_prover.Server.Service.{
  respond, joins, step, on_return, on_panic, on_join, job_returns, job_panics, drop_job,
}
use agenc_prover.Server.App.{World, awaited_answer, waited, task_end, prove_alone}
use agenc_prover.Server.Threads.{Outcome, returns, panics}

-- No permit is missing, no job is left, and the request is answered or its task gone.
pub record IsReleased (s : AppState) (x : AppState × Answer) : Type 0 where
  pub available : x.0.prove_runtime.available ≡ s.prove_runtime.available
  pub jobs : x.0.jobs ≡ s.jobs
  pub answered : x.1 ≢ pending

abbrev fixed_job : ℕ → Generate.ProveRequest → Job
fixed_job id fixed = record { request_id = id; fixed = fixed; progress = running; awaited = true }

respond-answered : (result : Result ProveResponse ProveError) → respond result ≢ pending
unfolding respond
respond-answered result = ground arith

module _ (s : AppState) (id : ℕ) (fixed : Generate.ProveRequest) (others : List Job) where
  -- The state in which that job has just been started.
  with_job : AppState
  with_job = record s { jobs = fixed_job id fixed ∷ others }

  task_end-returns :
      (result : Result ProveResponse ProveError) (duration : ℕ)
      → task_end id (returns result duration) with_job ≡ (
        drop_job (job_returns with_job (fixed_job id fixed) others result duration) others,
        respond result,
      )
  unfolding with_job task_end step on_return on_join job_returns drop_job
  task_end-returns result duration =
      let j = fixed_job id fixed in
      let s₁ = (on_return with_job (some (j, others)) result duration).0 in
      ap (λ o. step (joins id []) (on_return with_job o result duration).0)
        (take_job-first j others)
      ∙ ap (on_join s₁ []) (take_job-first (record j { progress = returned result }) others)

  task_end-panics :
      (join_error : Text)
      → task_end id (panics join_error) with_job
        ≡ on_join
            (job_panics with_job (fixed_job id fixed) others)
            join_error
            (some (record (fixed_job id fixed) { progress = panicked }, others))
  unfolding with_job task_end step on_panic job_panics
  task_end-panics join_error =
      let j = fixed_job id fixed in
      let s₁ = (on_panic with_job (some (j, others))).0 in
      ap (λ o. step (joins id join_error) (on_panic with_job o).0) (take_job-first j others)
      ∙ ap (on_join s₁ join_error) (take_job-first (record j { progress = panicked }) others)

  task_end-IsReleased :
      (free : AppState) (outcome : Outcome)
      → free.prove_runtime.available ≡ s.prove_runtime.available + 1
      → free.jobs ≡ others
      → IsReleased free (task_end id outcome with_job)
  unfolding with_job job_returns job_panics on_join drop_job
  task_end-IsReleased free (returns result duration) e js =
      subst (IsReleased free) (sym (task_end-returns result duration))
        (record { available = sym e; jobs = sym js; answered = respond-answered result })
  task_end-IsReleased free (panics join_error) e js =
      subst (IsReleased free) (sym (task_end-panics join_error))
        (record { available = sym e; jobs = sym js; answered = λ h. ground arith })

otherwise :
    (free : AppState) (b : Bool) (x y : AppState × Answer)
    → b ≡ false
    → IsReleased free y
    → IsReleased free (if b then x else y)
otherwise free true x y e h = absurd (ground arith)
otherwise free false x y e h = h

module _ (w : World) (on_time : w.late ≡ false) where
  -- The wait for a job that the handler has just started.
  waited-IsReleased :
      (free s : AppState) (id : ℕ) (fixed : Generate.ProveRequest) (others : List Job)
      → free.prove_runtime.available ≡ s.prove_runtime.available + 1
      → free.jobs ≡ others
      → IsReleased free (waited w (fixed_job id fixed ∷ others) (with_job s id fixed others))
  unfolding waited with_job
  waited-IsReleased free s id fixed others e js =
      otherwise free w.late _ _ on_time
        (task_end-IsReleased s id fixed others free (w.prove_fn fixed) e js)

  spawned-IsReleased :
      (free s : AppState) (id : ℕ) (fixed : Generate.ProveRequest) (b : Bool)
      → leb s.prove_runtime.available 0 ≡ b
      → free.prove_runtime.available ≡ s.prove_runtime.available
      → free.jobs ≡ s.jobs
      → IsReleased free (
          awaited_answer w (
            if b
            then (
              with_metrics s (record_overloaded (metrics s)),
              failure (saturated s.prove_runtime),
            )
            else (
              record s {
                prove_runtime = record s.prove_runtime {
                  available = s.prove_runtime.available - 1;
                  observability = record_proof_job_started s.prove_runtime.observability;
                };
                jobs = fixed_job id fixed ∷ s.jobs;
              },
              pending,
            )))
  unfolding awaited_answer with_job
  spawned-IsReleased free s id fixed true t e js = record {
    available = sym e;
    jobs = sym js;
    answered = λ h. ground arith;
  }
  spawned-IsReleased free s id fixed false t e js =
      waited-IsReleased free
        (record s {
          prove_runtime = record s.prove_runtime {
            available = s.prove_runtime.available - 1;
            observability = record_proof_job_started s.prove_runtime.observability;
          };
        })
        id fixed s.jobs (ground (arith, t, e)) js

  spawn-IsReleased :
      (free s : AppState) (id : ℕ) (fixed : Generate.ProveRequest)
      → free.prove_runtime.available ≡ s.prove_runtime.available
      → free.jobs ≡ s.jobs
      → IsReleased free (awaited_answer w (spawn s id fixed))
  unfolding spawn
  spawn-IsReleased free s id fixed e js =
      spawned-IsReleased free s id fixed (leb s.prove_runtime.available 0) refl e js

  convert-IsReleased :
      (free s : AppState) (id : ℕ) (r : Result Generate.ProveRequest AppError)
      → free.prove_runtime.available ≡ s.prove_runtime.available
      → free.jobs ≡ s.jobs
      → IsReleased free (awaited_answer w (convert s id r))
  unfolding convert awaited_answer
  convert-IsReleased free s id (ok fixed) e js = spawn-IsReleased free s id fixed e js
  convert-IsReleased free s id (err x) e js = record {
    available = sym e;
    jobs = sym js;
    answered = λ h. ground arith;
  }
  convert-IsReleased free s id panic e js = record {
    available = sym e;
    jobs = sym js;
    answered = λ h. ground arith;
  }

  limit-IsReleased :
      (free s : AppState) (id : ℕ) (request : ProveRequest)
      (x : RateLimiter × Result (Unit {0}) AppError)
      → free.prove_runtime.available ≡ s.prove_runtime.available
      → free.jobs ≡ s.jobs
      → IsReleased free (awaited_answer w (limit s id request x))
  unfolding limit awaited_answer
  limit-IsReleased free s id request (l, ok _) e js =
      convert-IsReleased free _ id (try_into_fixed request) e js
  limit-IsReleased free s id request (l, err x) e js = record {
    available = sym e;
    jobs = sym js;
    answered = λ h. ground arith;
  }
  limit-IsReleased free s id request (l, panic) e js = record {
    available = sym e;
    jobs = sym js;
    answered = λ h. ground arith;
  }

  authorized-IsReleased :
      (free s : AppState) (id : ℕ) (request : ProveRequest) (b : Result RateLimitBucket AppError)
      → free.prove_runtime.available ≡ s.prove_runtime.available
      → free.jobs ≡ s.jobs
      → IsReleased free (awaited_answer w (authorized s id request w.now w.later b))
  unfolding authorized awaited_answer
  authorized-IsReleased free s id request (ok bucket) e js =
      limit-IsReleased free s id request _ e js
  authorized-IsReleased free s id request (err x) e js = record {
    available = sym e;
    jobs = sym js;
    answered = λ h. ground arith;
  }
  authorized-IsReleased free s id request panic e js = record {
    available = sym e;
    jobs = sym js;
    answered = λ h. ground arith;
  }

-- A request to `/prove` that is served by itself, and whose prover ends before the time is over,
-- leaves as many free permits and the same jobs as before it, and its handler has come to its end.
pub prove_alone-IsReleased :
    (w : World) (header : Option Text) (request : ProveRequest) (s : AppState)
    → w.late ≡ false
    → IsReleased s (prove_alone w header request s)
unfolding prove_alone arrive
prove_alone-IsReleased w header request s on_time =
    authorized-IsReleased w on_time s _ _ request (authorize s.prove_auth header) refl refl
