-- ===== src/Server/Service/Order.antt =====
-- The order of the checks in the handler of server/src/main.rs, and what each refusal leaves as it
-- was.
use agenc_prover.Base.{
  ℕ, ◌+◌, ◌≡◌, ◌≢◌, ◌⊎◌, inl, inr, refl, arith, Bool, true, false, ◌∷◌, Option, Text, Result, ok,
  err, panic, leb, if◌then◌else◌,
}
use agenc_prover.Prover.Generate
use agenc_prover.Server.Errors.{AppError, overloaded}
use agenc_prover.Server.Auth.{authorize}
use agenc_prover.Server.Request.{ProveRequest, try_into_fixed}
use agenc_prover.Server.Request.Widths.{try_into_fixed-no_panic}
use agenc_prover.Server.RateLimit.{RateLimiter, RateLimitBucket, check}
use agenc_prover.Server.Metrics.{next_request_id, record_request_received}
use agenc_prover.Server.Runtime.{
  AppState, running, Answer, pending, failure, saturated, spawn, convert, limit, authorized, arrive,
  with_metrics, metrics,
}
use agenc_prover.Server.Service.Arrival.{authorize-no_panic, check-no_panic}

-- No job is started and no permit is taken.
abbrev pub Kept : AppState → AppState → Type 0
Kept s t = (t.jobs ≡ s.jobs) × (t.prove_runtime.available ≡ s.prove_runtime.available)

-- A converted request: refused with 503 when no permit is free, else given to a new job.
abbrev pub Spawned : AppState → ℕ → Generate.ProveRequest → AppState × Answer → Type 0
Spawned s id fixed (t, answer) =
    ((s.prove_runtime.available ≡ 0)
      × ((e : AppError) × (e.status ≡ 503) × (answer ≡ failure e))
      × Kept s t)
    ⊎ ((t.prove_runtime.available + 1 ≡ s.prove_runtime.available)
        × (answer ≡ pending)
        × (t.jobs
            ≡ record { request_id = id; fixed = fixed; progress = running; awaited = true }
              ∷ s.jobs))

-- An admitted request: refused with its conversion's error, or converted.
abbrev pub Converted : AppState → ℕ → ProveRequest → AppState × Answer → Type 0
Converted s id request (t, answer) =
    ((e : AppError) × (try_into_fixed request ≡ err e) × (answer ≡ failure e) × Kept s t)
    ⊎ ((fixed : Generate.ProveRequest) × (try_into_fixed request ≡ ok fixed)
        × Spawned s id fixed (t, answer))

-- An authorized request: refused by its bucket's limiter, or admitted.
abbrev pub Limited :
    AppState
    → ℕ
    → ProveRequest
    → RateLimiter × Result (Unit {0}) AppError
    → AppState × Answer
    → Type 0
Limited s id request (l, verdict) (t, answer) =
    (t.prove_runtime.rate_limiter ≡ l)
    × (((e : AppError) × (verdict ≡ err e) × (answer ≡ failure e) × Kept s t)
        ⊎ ((verdict ≡ ok tt) × Converted s id request (t, answer)))

-- Every request: refused without a look at the limiter, or authorized for a bucket.
abbrev pub Arrived :
    AppState → ℕ → Option Text → ProveRequest → (now later : ℕ) → AppState × Answer → Type 0
Arrived s id header request now later (t, answer) =
    ((e : AppError) × (authorize s.prove_auth header ≡ err e)
      × (answer ≡ failure e)
      × (t.prove_runtime.rate_limiter ≡ s.prove_runtime.rate_limiter)
      × Kept s t)
    ⊎ ((bucket : RateLimitBucket) × (authorize s.prove_auth header ≡ ok bucket)
        × Limited s id request (check s.prove_runtime.rate_limiter bucket now later) (t, answer))

by_test :
    (P : AppState × Answer → Type 0) (b : Bool) (x y : AppState × Answer)
    → (b ≡ true → P x)
    → (b ≡ false → P y)
    → P (if b then x else y)
by_test P true x y hx hy = hx refl
by_test P false x y hx hy = hy refl

-- The state with another limiter.
abbrev with_limiter : AppState → RateLimiter → AppState
with_limiter s l = record s { prove_runtime = record s.prove_runtime { rate_limiter = l } }

spawn-Spawned :
    (s : AppState) (id : ℕ) (fixed : Generate.ProveRequest) → Spawned s id fixed (spawn s id fixed)
unfolding spawn saturated overloaded
spawn-Spawned s id fixed =
    by_test (Spawned s id fixed) (leb s.prove_runtime.available 0) _ _
      (λ e. inl (ground arith, (saturated s.prove_runtime, refl, refl), (refl, refl)))
      (λ e. inr (ground arith, refl, refl))

convert-Converted :
    (s : AppState) (id : ℕ) (request : ProveRequest) (r : Result Generate.ProveRequest AppError)
    → try_into_fixed request ≡ r
    → Converted s id request (convert s id r)
unfolding convert
convert-Converted s id request (ok fixed) e = inr (fixed, e, spawn-Spawned s id fixed)
convert-Converted s id request (err x) e = inl (x, e, refl, (refl, refl))
convert-Converted s id request panic e = absurd (try_into_fixed-no_panic request e)

spawn-limiter :
    (s : AppState) (id : ℕ) (fixed : Generate.ProveRequest)
    → (spawn s id fixed).0.prove_runtime.rate_limiter ≡ s.prove_runtime.rate_limiter
unfolding spawn
spawn-limiter s id fixed = ground arith

convert-limiter :
    (s : AppState) (id : ℕ) (r : Result Generate.ProveRequest AppError)
    → (convert s id r).0.prove_runtime.rate_limiter ≡ s.prove_runtime.rate_limiter
unfolding convert
convert-limiter s id (ok fixed) = spawn-limiter s id fixed
convert-limiter s id (err e) = refl
convert-limiter s id panic = refl

limit-Limited :
    (s : AppState) (id : ℕ) (request : ProveRequest) (x : RateLimiter × Result (Unit {0}) AppError)
    → x.1 ≢ panic
    → Limited s id request x (limit s id request x)
unfolding limit
limit-Limited s id request (l, ok u) n = (
  convert-limiter _ id (try_into_fixed request),
  inr (refl, convert-Converted (with_limiter s l) id request (try_into_fixed request) refl),
)
limit-Limited s id request (l, err e) n = (refl, inl (e, refl, refl, (refl, refl)))
limit-Limited s id request (l, panic) n = absurd (n refl)

authorized-Arrived :
    (s : AppState) (id : ℕ) (header : Option Text) (request : ProveRequest) (now later : ℕ)
    (x : Result RateLimitBucket AppError)
    → authorize s.prove_auth header ≡ x
    → Arrived s id header request now later (authorized s id request now later x)
unfolding authorized
authorized-Arrived s id header request now later (ok b) e = inr (
  b,
  e,
  limit-Limited s id request (check s.prove_runtime.rate_limiter b now later)
      (check-no_panic s.prove_runtime.rate_limiter b now later),
)
authorized-Arrived s id header request now later (err x) e = inl (x, e, refl, refl, (refl, refl))
authorized-Arrived s id header request now later panic e =
    absurd (authorize-no_panic s.prove_auth header e)

-- The handler checks in this order: the authorization, the limiter of the bucket, the widths, the
-- free permits. The first check that fails gives the answer (503 for the last), and starts no job
-- and takes no permit; an unauthorized request leaves the limiter as it was. A request that passes
-- all of them takes one permit and becomes one running job with the number that it was given and the converted fields.
pub arrive-Arrived :
    (s : AppState) (header : Option Text) (request : ProveRequest) (now later : ℕ)
    → Arrived s
        ((next_request_id (metrics s)).1)
        header
        request
        now
        later
        (arrive s header request now later)
unfolding arrive
arrive-Arrived s header request now later =
    let (m, id) = next_request_id (metrics s) in
    authorized-Arrived (with_metrics s (record_request_received m)) id header request now later
      (authorize s.prove_auth header) refl
