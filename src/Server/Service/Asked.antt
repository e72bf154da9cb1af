-- ===== src/Server/Service/Asked.antt =====
-- What one event of server/src/main.rs does to the windows of the rate limiter.

use agenc_prover.Base.{
  ℕ, ◌≤◌, ◌≡◌, refl, sym, ap, ◌∙◌, ◌⊎◌, inl, inr, List, Option, Text, Result, ok, arith,
}
use agenc_prover.Prover.Generate.{ProveResponse, ProveError}
use agenc_prover.Server.Errors.{AppError}
use agenc_prover.Server.Auth.{ProveAuth, disabled, api_key, authorize}
use agenc_prover.Server.Auth.Tokens.{authorize_iff}
use agenc_prover.Server.Request.{ProveRequest}
use agenc_prover.Server.RateLimit.{
  RateLimitPolicy, RateLimiter, RateLimitBucket, local_dev_bucket, protected_bucket, check_window,
  check,
}
use agenc_prover.Server.RateLimit.Window.{Reading, accepted}
use agenc_prover.Server.RateLimit.Buckets.{Windows, limiter, with_window, check-limiter}
use agenc_prover.Server.Runtime.{
  metrics, AppState, Answer, pending, success, failure, aborted, Job, arrive,
}
use agenc_prover.Server.Service.{
  take_job, on_return, on_panic, on_join, on_expiry, on_disconnect, job_returns, job_panics,
  drop_job, abandon, Event, arrives, returns, panics, joins, expires, disconnects, step,
}
use agenc_prover.Server.Metrics.{next_request_id}
use agenc_prover.Server.Service.Order.{Arrived, arrive-Arrived}

-- A job is started by an arrival that is not answered at once.
abbrev pub starts : Event → Answer → ℕ
starts (arrives header request now later) pending = 1
starts (arrives header request now later) (success _) = 0
starts (arrives header request now later) (failure _) = 0
starts (arrives header request now later) aborted = 0
starts (returns id result duration) answer = 0
starts (panics id) answer = 0
starts (joins id message) answer = 0
starts (expires id) answer = 0
starts (disconnects id) answer = 0

-- An arrival's readings of the clock satisfy `P`.
abbrev pub OnArrival : (Reading → Type 0) → Event → Type 0
OnArrival P (arrives header request now later) = P (record { now = now; later = later })
OnArrival P (returns id result duration) = Unit {0}
OnArrival P (panics id) = Unit {0}
OnArrival P (joins id message) = Unit {0}
OnArrival P (expires id) = Unit {0}
OnArrival P (disconnects id) = Unit {0}

-- The one bucket that authorized requests are counted in.
abbrev pub bucket_of : ProveAuth → RateLimitBucket
bucket_of disabled = local_dev_bucket
bucket_of (api_key k) = protected_bucket

authorize-bucket_of :
    (auth : ProveAuth) (header : Option Text) (b : RateLimitBucket)
    → authorize auth header ≡ ok b
    → b ≡ bucket_of auth
unfolding authorize
authorize-bucket_of disabled header b e = ground arith
authorize-bucket_of (api_key k) header b e = ((authorize_iff k header b).0.0 e).1

-- The limiter of a state.
abbrev pub limiter_of : AppState → RateLimiter
limiter_of s = s.prove_runtime.rate_limiter

on_return-limiter :
    (s : AppState) (found : Option (Job × List Job)) (x : Result ProveResponse ProveError) (d : ℕ)
    → limiter_of ((on_return s found x d).0) ≡ limiter_of s
unfolding on_return job_returns
on_return-limiter s found x d = ground arith

on_panic-limiter :
    (s : AppState) (found : Option (Job × List Job))
    → limiter_of ((on_panic s found).0) ≡ limiter_of s
unfolding on_panic job_panics
on_panic-limiter s found = ground arith

on_join-limiter :
    (s : AppState) (message : Text) (found : Option (Job × List Job))
    → limiter_of ((on_join s message found).0) ≡ limiter_of s
unfolding on_join drop_job
on_join-limiter s message found = ground arith

on_expiry-limiter :
    (s : AppState) (found : Option (Job × List Job))
    → limiter_of ((on_expiry s found).0) ≡ limiter_of s
unfolding on_expiry abandon
on_expiry-limiter s found = ground arith

on_disconnect-limiter :
    (s : AppState) (found : Option (Job × List Job))
    → limiter_of ((on_disconnect s found).0) ≡ limiter_of s
unfolding on_disconnect abandon
on_disconnect-limiter s found = ground arith

starts_le : (e : Event) (answer : Answer) → starts e answer ≤ 1
starts_le (arrives header request now later) pending = omega arith
starts_le (arrives header request now later) (success _) = omega arith
starts_le (arrives header request now later) (failure _) = omega arith
starts_le (arrives header request now later) aborted = omega arith
starts_le (returns id result duration) answer = omega arith
starts_le (panics id) answer = omega arith
starts_le (joins id message) answer = omega arith
starts_le (expires id) answer = omega arith
starts_le (disconnects id) answer = omega arith

module _ (P : Reading → Type 0) (p : RateLimitPolicy) (b : RateLimitBucket) (ws : Windows) where
  -- The limiter is not asked, and no job is started.
  pub record IsUnasked (e : Event) (x : AppState × Answer) : Type 0 where
    pub unasked_limiter : limiter_of x.0 ≡ limiter p ws
    pub no_start : starts e x.1 ≡ 0

  -- The limiter is asked at one reading, and a job is started at most when it admits the call.
  pub record IsAsked (e : Event) (x : AppState × Answer) : Type 0 where
    pub reading : Reading
    pub allowed : P reading
    pub asked_limiter :
        limiter_of x.0
        ≡ limiter p (with_window ws b ((check_window p (ws b) reading.now reading.later).0))
    pub start_admitted :
        starts e x.1 ≤ accepted ((check_window p (ws b) reading.now reading.later).1)

  failure-starts :
      (header : Option Text) (request : ProveRequest) (now later : ℕ) (e : AppError) (a : Answer)
      → a ≡ failure e
      → starts (arrives header request now later) a ≡ 0
  failure-starts header request now later e a h = rw h refl

  Arrived-IsAsked :
      (s : AppState) (id : ℕ) (header : Option Text) (request : ProveRequest) (now later : ℕ)
      (x : AppState × Answer)
      → limiter_of s ≡ limiter p ws
      → bucket_of s.prove_auth ≡ b
      → OnArrival P (arrives header request now later)
      → Arrived s id header request now later x
      → IsUnasked (arrives header request now later) x
        ⊎ IsAsked (arrives header request now later) x
  Arrived-IsAsked s id header request now later (u, a) hl hb hs (inl (e, _, failed, kept, _)) =
      inl (record {
        unasked_limiter = kept ∙ hl;
        no_start = failure-starts header request now later e a failed;
      })
  Arrived-IsAsked s id header request now later (u, a) hl hb hs
        (inr (c, authorized, (asked, verdict))) =
      let same = authorize-bucket_of s.prove_auth header c authorized ∙ hb in
      let called =
        ap (λ l. check l c now later) hl
        ∙ ap (λ d. check (limiter p ws) d now later) same
        ∙ check-limiter p ws b now later in
      inr (record {
        reading = record { now = now; later = later };
        allowed = hs;
        asked_limiter = asked ∙ ap (λ y. y.0) called;
        start_admitted = elim verdict [
          | inl (e, _, failed, _) ↦
              omega (arith, failure-starts header request now later e a failed)
          | inr (passed, _) ↦
              rw (sym (ap (λ y. y.1) called) ∙ passed)
                (starts_le (arrives header request now later) a)
        ];
      })

  kept-IsUnasked :
      (e : Event) (s : AppState) (x : AppState × Answer)
      → limiter_of s ≡ limiter p ws
      → limiter_of x.0 ≡ limiter_of s
      → starts e x.1 ≡ 0
      → IsUnasked e x ⊎ IsAsked e x
  kept-IsUnasked e s x hl kept none_started =
      inl (record { unasked_limiter = kept ∙ hl; no_start = none_started })

  pub step-IsAsked :
      (e : Event) (s : AppState)
      → limiter_of s ≡ limiter p ws
      → bucket_of s.prove_auth ≡ b
      → OnArrival P e
      → IsUnasked e (step e s) ⊎ IsAsked e (step e s)
  unfolding step
  step-IsAsked (arrives header request now later) s hl hb hs =
      Arrived-IsAsked s ((next_request_id (metrics s)).1) header request now later
        (arrive s header request now later) hl hb hs (arrive-Arrived s header request now later)
  step-IsAsked (returns id result d) s hl hb hs =
      kept-IsUnasked (returns id result d) s _ hl
        (on_return-limiter s (take_job id s.jobs) result d) refl
  step-IsAsked (panics id) s hl hb hs =
      kept-IsUnasked (panics id) s _ hl (on_panic-limiter s (take_job id s.jobs)) refl
  step-IsAsked (joins id message) s hl hb hs =
      kept-IsUnasked (joins id message) s _ hl (on_join-limiter s message (take_job id s.jobs)) refl
  step-IsAsked (expires id) s hl hb hs =
      kept-IsUnasked (expires id) s _ hl (on_expiry-limiter s (take_job id s.jobs)) refl
  step-IsAsked (disconnects id) s hl hb hs =
      kept-IsUnasked (disconnects id) s _ hl (on_disconnect-limiter s (take_job id s.jobs)) refl
