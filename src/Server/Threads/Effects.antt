-- ===== src/Server/Threads/Effects.antt =====
-- The handler of server/src/main.rs without an interruption, against the order of its checks and the
-- counters that its answer calls for.
use agenc_prover.Base.{
  ℕ, ◌≡◌, ◌⊎◌, inl, inr, refl, sym, ap, arith, Bool, true, false, Option, Text, Result, ok, err,
  panic, leb, ◌==◌, if◌then◌else◌,
}
use mathlib.Core.Path.{subst}
use agenc_prover.Prover.Generate
use agenc_prover.Server.Auth.{ProveAuth, authorize}
use agenc_prover.Server.Errors.{
  AppError, bad_request, internal, overloaded, too_many_requests, unauthorized,
}
use agenc_prover.Server.Metrics.{
  Observability, fetch_add, next_request_id, record_request_received, record_unauthorized,
  record_bad_request, record_rate_limited, record_overloaded, record_proof_job_started,
}
use agenc_prover.Server.RateLimit.{
  RateLimiter, RateLimitBucket, local_dev_bucket, protected_bucket, check, check_window,
}
use agenc_prover.Server.Request.{ProveRequest, try_into_fixed}
use agenc_prover.Server.Request.Widths.{try_into_fixed-bad_request}
use agenc_prover.Server.Runtime.{
  AppState, Answer, pending, success, failure, aborted, saturated, spawn, convert, limit,
  authorized, arrive, metrics, with_metrics,
}
use agenc_prover.Server.Service.Denials.{authorize-unauthorized}
use agenc_prover.Server.Service.Order.{Arrived, arrive-Arrived}
use agenc_prover.Server.Threads.{handling, entered, goes}
use agenc_prover.Server.Threads.Whole.{uninterrupted, outcome, uninterrupted-arrive}

-- The status of a refusal; 1 for a new job; 0 for the rest.
unfoldable pub answer_code : Answer → ℕ
answer_code (failure e) = e.status
answer_code pending = 1
answer_code (success response) = 0
answer_code aborted = 0

-- One more if the answer's code is the given one.
unfoldable pub one_more_if : ℕ → ℕ → ℕ → ℕ
one_more_if code k counter = if k == code then fetch_add counter 1 else counter

-- What a request whose answer has that code adds to the counters.
pub record IsCountedFor (m n : Observability) (k : ℕ) : Type 0 where
  pub numbers : n.request_sequence ≡ m.request_sequence
  pub requests : n.prove_requests_total ≡ m.prove_requests_total
  pub unauthorized : n.prove_unauthorized_total ≡ one_more_if 401 k m.prove_unauthorized_total
  pub malformed : n.prove_bad_request_total ≡ one_more_if 400 k m.prove_bad_request_total
  pub limited :
      n.prove_rate_limited_total ≡ one_more_if 429 k (one_more_if 500 k m.prove_rate_limited_total)
  pub overloads : n.prove_overloaded_total ≡ one_more_if 503 k m.prove_overloaded_total
  pub timeouts : n.prove_timeouts_total ≡ m.prove_timeouts_total
  pub started : n.proof_jobs_started_total ≡ one_more_if 1 k m.proof_jobs_started_total
  pub completed : n.proof_jobs_completed_total ≡ m.proof_jobs_completed_total
  pub in_flight : n.proofs_in_flight ≡ one_more_if 1 k m.proofs_in_flight

abbrev pub CountedFor : Observability → AppState × Answer → Type 0
CountedFor m (t, answer) = IsCountedFor m (metrics t) (answer_code answer)

all_same : (m : Observability) → IsCountedFor m m 0
unfolding one_more_if
all_same m = record {
  numbers = refl;
  requests = refl;
  unauthorized = refl;
  malformed = refl;
  limited = refl;
  overloads = refl;
  timeouts = refl;
  started = refl;
  completed = refl;
  in_flight = refl;
}

unauthorized-IsCountedFor : (m : Observability) → IsCountedFor m (record_unauthorized m) 401
unfolding one_more_if record_unauthorized
unauthorized-IsCountedFor m = record {
  numbers = refl;
  requests = refl;
  unauthorized = refl;
  malformed = refl;
  limited = refl;
  overloads = refl;
  timeouts = refl;
  started = refl;
  completed = refl;
  in_flight = refl;
}

bad_request-IsCountedFor : (m : Observability) → IsCountedFor m (record_bad_request m) 400
unfolding one_more_if record_bad_request
bad_request-IsCountedFor m = record {
  numbers = refl;
  requests = refl;
  unauthorized = refl;
  malformed = refl;
  limited = refl;
  overloads = refl;
  timeouts = refl;
  started = refl;
  completed = refl;
  in_flight = refl;
}

rate_limited-IsCountedFor :
    (m : Observability) (k : ℕ) → (k ≡ 429) ⊎ (k ≡ 500) → IsCountedFor m (record_rate_limited m) k
unfolding one_more_if record_rate_limited
rate_limited-IsCountedFor m k (inl e) = rw e record {
  numbers = refl;
  requests = refl;
  unauthorized = refl;
  malformed = refl;
  limited = refl;
  overloads = refl;
  timeouts = refl;
  started = refl;
  completed = refl;
  in_flight = refl;
}
rate_limited-IsCountedFor m k (inr e) = rw e record {
  numbers = refl;
  requests = refl;
  unauthorized = refl;
  malformed = refl;
  limited = refl;
  overloads = refl;
  timeouts = refl;
  started = refl;
  completed = refl;
  in_flight = refl;
}

overloaded-IsCountedFor : (m : Observability) → IsCountedFor m (record_overloaded m) 503
unfolding one_more_if record_overloaded
overloaded-IsCountedFor m = record {
  numbers = refl;
  requests = refl;
  unauthorized = refl;
  malformed = refl;
  limited = refl;
  overloads = refl;
  timeouts = refl;
  started = refl;
  completed = refl;
  in_flight = refl;
}

started-IsCountedFor : (m : Observability) → IsCountedFor m (record_proof_job_started m) 1
unfolding one_more_if record_proof_job_started
started-IsCountedFor m = record {
  numbers = refl;
  requests = refl;
  unauthorized = refl;
  malformed = refl;
  limited = refl;
  overloads = refl;
  timeouts = refl;
  started = refl;
  completed = refl;
  in_flight = refl;
}

check-codes :
    (l : RateLimiter) (b : RateLimitBucket) (now later : ℕ) (e : AppError)
    → (check l b now later).1 ≡ err e
    → (e.status ≡ 429) ⊎ (e.status ≡ 500)
unfolding check check_window too_many_requests internal
check-codes l local_dev_bucket now later e h = ground (arith, h)
check-codes l protected_bucket now later e h = ground (arith, h)

spawn-CountedFor :
    (s : AppState) (id : ℕ) (fixed : Generate.ProveRequest) (b : Bool)
    → leb s.prove_runtime.available 0 ≡ b
    → CountedFor (metrics s) (spawn s id fixed)
unfolding spawn saturated overloaded answer_code
spawn-CountedFor s id fixed true e = rw e (overloaded-IsCountedFor (metrics s))
spawn-CountedFor s id fixed false e = rw e (started-IsCountedFor (metrics s))

convert-CountedFor :
    (s : AppState) (id : ℕ) (request : ProveRequest) (x : Result Generate.ProveRequest AppError)
    → try_into_fixed request ≡ x
    → CountedFor (metrics s) (convert s id x)
unfolding convert answer_code bad_request
convert-CountedFor s id request (ok fixed) h = spawn-CountedFor s id fixed _ refl
convert-CountedFor s id request (err e) h =
    let (m, same) = try_into_fixed-bad_request request e h in
    subst (IsCountedFor (metrics s) (record_bad_request (metrics s)))
      (sym (ap (λ y. y.status) same)) (bad_request-IsCountedFor (metrics s))
convert-CountedFor s id request panic h = all_same (metrics s)

limit-CountedFor :
    (s : AppState) (id : ℕ) (request : ProveRequest) (x : RateLimiter × Result (Unit {0}) AppError)
    → ((e : AppError) → x.1 ≡ err e → (e.status ≡ 429) ⊎ (e.status ≡ 500))
    → CountedFor (metrics s) (limit s id request x)
unfolding limit answer_code
limit-CountedFor s id request (l, ok _) h = convert-CountedFor _ id request _ refl
limit-CountedFor s id request (l, err e) h =
    rate_limited-IsCountedFor (metrics s) e.status (h e refl)
limit-CountedFor s id request (l, panic) h = all_same (metrics s)

authorized-CountedFor :
    (auth : ProveAuth) (header : Option Text) (s : AppState) (id : ℕ) (request : ProveRequest)
    (now later : ℕ) (x : Result RateLimitBucket AppError)
    → authorize auth header ≡ x
    → CountedFor (metrics s) (authorized s id request now later x)
unfolding authorized answer_code unauthorized
authorized-CountedFor auth header s id request now later (ok bucket) h =
    limit-CountedFor s id request _ (check-codes s.prove_runtime.rate_limiter bucket now later)
authorized-CountedFor auth header s id request now later (err e) h =
    let (m, same) = authorize-unauthorized auth header e h in
    subst (IsCountedFor (metrics s) (record_unauthorized (metrics s)))
      (sym (ap (λ y. y.status) same)) (unauthorized-IsCountedFor (metrics s))
authorized-CountedFor auth header s id request now later panic h = all_same (metrics s)

arrive-CountedFor :
    (s : AppState) (header : Option Text) (request : ProveRequest) (now later : ℕ)
    → CountedFor
        (record_request_received ((next_request_id (metrics s)).0))
        (arrive s header request now later)
unfolding arrive
arrive-CountedFor s header request now later =
    let (m, id) = next_request_id (metrics s) in
    authorized-CountedFor s.prove_auth header (with_metrics s (record_request_received m)) id
      request now later _ refl

-- The handler's shared operations, taken one after the other with no other turn between them, check
-- the authorization, the limiter, the widths and the permits in this order and leave the limiter, the
-- permits and the jobs as the first failed check or their success calls for. Beside the request's own
-- number and count, one counter of refusals goes up for an answer with 401, 400, 429 or 500, or 503
-- and the others stay; a new job raises the counter of started jobs and the gauge, and nothing else
-- does; the counters of timeouts and of completed jobs stay.
pub uninterrupted_effects :
    (s : AppState) (header : Option Text) (request : ProveRequest) (now later : ℕ)
    → let end = outcome s (
        uninterrupted 15 s.prove_auth
          (goes now later)
          (s.prove_runtime, handling (entered header request))) in
      let (m, id) = next_request_id (metrics s) in
      Arrived s id header request now later end × CountedFor (record_request_received m) end
uninterrupted_effects s header request now later =
    let same = sym (uninterrupted-arrive s header request now later) in
    (
      subst (Arrived s ((next_request_id (metrics s)).1) header request now later) same
          (arrive-Arrived s header request now later),
      subst (CountedFor (record_request_received ((next_request_id (metrics s)).0))) same
          (arrive-CountedFor s header request now later),
    )
