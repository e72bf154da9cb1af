-- ===== src/Server/Service/Denials.antt =====
-- Which errors an arrival in server/src/main.rs is answered.
use mathlib.Core.Path.{subst}
use agenc_prover.Base.{
  ℕ, ◌<◌, ◌≡◌, refl, sym, ap, ◌∙◌, inl, inr, Bool, true, false, Option, Option-cases, Text, text,
  if◌then◌else◌, Result, ok, err, panic, err_inj, arith,
}
use agenc_prover.Prover.Generate
use agenc_prover.Prover.Generate.{ProveResponse, ProveError, invalid_request, display_prove_error}
use agenc_prover.Server.Errors.{AppError, unauthorized}
use agenc_prover.Server.Errors.Responses.{
  IsPlain, IsDelayed, bad_request-IsPlain, unauthorized-IsPlain, too_many_requests-IsDelayed,
  overloaded-IsDelayed,
}
use agenc_prover.Prover.Generate.{
  unexpected_journal_length, untrusted_image_id, dev_mode_enabled, prover_failed,
  receipt_type_mismatch,
}
use agenc_prover.Server.Auth.{ProveAuth, disabled, api_key, authorize, extract_bearer_token}
use agenc_prover.Server.Request.{ProveRequest, try_into_fixed}
use agenc_prover.Server.Request.Widths.{try_into_fixed-bad_request}
use agenc_prover.Server.RateLimit.{
  RateLimitPolicy, RateLimiter, RateLimitBucket, FixedWindowState, check_window, policy_retry_after,
  check,
}
use agenc_prover.Server.RateLimit.Buckets.{Windows, limiter, check-limiter}
use agenc_prover.Server.Metrics.{next_request_id, record_request_received}
use agenc_prover.Server.Runtime.{
  AppState, Answer, failure, pending, saturated, spawn, convert, limit, authorized, arrive,
  with_metrics, metrics,
}
use agenc_prover.Server.Service.{Event, arrives, joins, expires}

-- The errors that each event can answer.
pub data Refuses : Event → AppError → Type 0 where
  not_authorized :
      {header : Option Text} {request : ProveRequest} {now later : ℕ} {e : AppError}
      → IsPlain 401 (text "unauthorized") e
      → Refuses (arrives header request now later) e
  rate_limited :
      {header : Option Text} {request : ProveRequest} {now later : ℕ} {e : AppError}
      → IsDelayed 429 (text "prove_rate_limited") e
      → Refuses (arrives header request now later) e
  malformed :
      {header : Option Text} {request : ProveRequest} {now later : ℕ} {e : AppError}
      → IsPlain 400 (text "bad_request") e
      → Refuses (arrives header request now later) e
  no_permit :
      {header : Option Text} {request : ProveRequest} {now later : ℕ} {e : AppError}
      → IsDelayed 503 (text "prove_overloaded") e
      → Refuses (arrives header request now later) e
  invalid :
      {id : ℕ} {join_error : Text} {e : AppError}
      → IsPlain 400 (text "bad_request") e
      → Refuses (joins id join_error) e
  failed :
      {id : ℕ} {join_error : Text} {e : AppError}
      → IsPlain 500 (text "internal_error") e
      → Refuses (joins id join_error) e
  too_late :
      {id : ℕ} {e : AppError} → IsDelayed 504 (text "prove_timeout") e → Refuses (expires id) e

pub failure_inj : {e e' : AppError} → failure e ≡ failure e' → e ≡ e'
failure_inj h = cc h

pub authorize-unauthorized :
    (auth : ProveAuth) (header : Option Text) (e : AppError)
    → authorize auth header ≡ err e
    → (m : Text) × (e ≡ unauthorized m)
unfolding authorize
authorize-unauthorized disabled header e h = cc h
authorize-unauthorized (api_key k) header e h = elim (Option-cases (extract_bearer_token header)) [
  | inl missing ↦ (text "missing bearer token for /prove", ground (arith, missing, h))
  | inr (t, found) ↦ (text "invalid API key", ground (arith, found, h))
]

-- The error of a test that refuses.
refused :
    {S : Type 0} (b : Bool) (u v : S) {e e' : AppError}
    → (if◌then◌else◌ {A = S × Result (Unit {0}) AppError} b (u, err e') (v, ok tt)).1 ≡ err e
    → e' ≡ e
refused true u v h = err_inj h
refused false u v h = cc h

check_window-IsDelayed :
    (p : RateLimitPolicy) (w : FixedWindowState) (now later : ℕ) (e : AppError)
    → (check_window p w now later).1 ≡ err e
    → IsDelayed 429 (text "prove_rate_limited") e
unfolding check_window policy_retry_after
check_window-IsDelayed p w now later e h =
    subst (IsDelayed 429 (text "prove_rate_limited")) (refused _ _ _ h)
      (too_many_requests-IsDelayed _ _ (omega arith))

check-IsDelayed :
    (l : RateLimiter) (p : RateLimitPolicy) (ws : Windows) (b : RateLimitBucket) (now later : ℕ)
    (e : AppError)
    → l ≡ limiter p ws
    → (check l b now later).1 ≡ err e
    → IsDelayed 429 (text "prove_rate_limited") e
check-IsDelayed l p ws b now later e hl h = check_window-IsDelayed p (ws b) now later e (
    sym (ap (λ k. (check k b now later).1) hl ∙ ap (λ y. y.1) (check-limiter p ws b now later)) ∙ h)

pub refused_spawn :
    {S : Type 0} (b : Bool) (u v : S) {e e' : AppError}
    → (if◌then◌else◌ {A = S × Answer} b (u, failure e') (v, pending)).1 ≡ failure e
    → e' ≡ e
refused_spawn true u v h = failure_inj h
refused_spawn false u v h = cc h

-- A state with a wait to report, and a limiter whose locks are open.
pub record IsSound (p : RateLimitPolicy) (s : AppState) : Type 0 where
  pub wait : 0 < s.prove_runtime.retry_after_seconds
  pub windows : Windows
  pub open_locks : s.prove_runtime.rate_limiter ≡ limiter p windows

module _ (header : Option Text) (request : ProveRequest) (now later : ℕ) where
  abbrev arrival : Event
  arrival = arrives header request now later

  spawn-Refuses :
      (s : AppState) (id : ℕ) (fixed : Generate.ProveRequest) (e : AppError)
      → 0 < s.prove_runtime.retry_after_seconds
      → (spawn s id fixed).1 ≡ failure e
      → Refuses arrival e
  unfolding spawn saturated
  spawn-Refuses s id fixed e w h = no_permit (
      subst (IsDelayed 503 (text "prove_overloaded")) (refused_spawn _ _ _ h)
        (overloaded-IsDelayed _ _ w))

  convert-Refuses :
      (s : AppState) (id : ℕ) (e : AppError) (r : Result Generate.ProveRequest AppError)
      → try_into_fixed request ≡ r
      → 0 < s.prove_runtime.retry_after_seconds
      → (convert s id r).1 ≡ failure e
      → Refuses arrival e
  unfolding convert
  convert-Refuses s id e (ok fixed) converted w h = spawn-Refuses s id fixed e w h
  convert-Refuses s id e (err x) converted w h =
      let (m, same) = try_into_fixed-bad_request request x converted in
      malformed (
        subst (IsPlain 400 (text "bad_request")) (sym same ∙ failure_inj h) (bad_request-IsPlain m))
  convert-Refuses s id e panic converted w h = cc h

  limit-Refuses :
      (s : AppState) (id : ℕ) (e : AppError) (l : RateLimiter) (x : Result (Unit {0}) AppError)
      → ((e' : AppError) → x ≡ err e' → IsDelayed 429 (text "prove_rate_limited") e')
      → 0 < s.prove_runtime.retry_after_seconds
      → (limit s id request (l, x)).1 ≡ failure e
      → Refuses arrival e
  unfolding limit
  limit-Refuses s id e l (ok _) d w h = convert-Refuses _ id e (try_into_fixed request) refl w h
  limit-Refuses s id e l (err x) d w h =
      rate_limited (subst (IsDelayed 429 (text "prove_rate_limited")) (failure_inj h) (d x refl))
  limit-Refuses s id e l panic d w h = cc h

  authorized-Refuses :
      (p : RateLimitPolicy) (s : AppState) (id : ℕ) (e : AppError)
      (x : Result RateLimitBucket AppError)
      → authorize s.prove_auth header ≡ x
      → IsSound p s
      → (authorized s id request now later x).1 ≡ failure e
      → Refuses arrival e
  unfolding authorized
  authorized-Refuses p s id e (ok b) a i h =
      let l = s.prove_runtime.rate_limiter in
      limit-Refuses s id e ((check l b now later).0) ((check l b now later).1)
        (λ e' c. check-IsDelayed l p i.windows b now later e' i.open_locks c) i.wait h
  authorized-Refuses p s id e (err x) a i h =
      let (m, same) = authorize-unauthorized s.prove_auth header x a in
      not_authorized (
        subst (IsPlain 401 (text "unauthorized")) (sym same ∙ failure_inj h)
          (unauthorized-IsPlain m))
  authorized-Refuses p s id e panic a i h = cc h

  pub arrive-Refuses :
      (p : RateLimitPolicy) (s : AppState) (e : AppError)
      → IsSound p s
      → (arrive s header request now later).1 ≡ failure e
      → Refuses arrival e
  unfolding arrive
  arrive-Refuses p s e i h =
      let (m, id) = next_request_id (metrics s) in
      authorized-Refuses p (with_metrics s (record_request_received m)) id e
        (authorize s.prove_auth header) refl
        (record { wait = i.wait; windows = i.windows; open_locks = i.open_locks }) h
