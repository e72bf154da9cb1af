-- ===== src/Server/RateLimit/Window.antt =====
-- How many requests the rate limiter of server/src/main.rs admits over time.
use agenc_prover.Base.{
  ℕ, ◌+◌, ◌-◌, ◌*◌, ◌%◌, ◌≤◌, ◌<◌, ◌≡◌, refl, ◌↔◌, some, ◌⊎◌, List, [], ◌∷◌, Result, ok, err, panic,
  arith, All,
}
use agenc_prover.Server.Errors.{AppError, too_many_requests}
use agenc_prover.Server.RateLimit.{
  RateLimitPolicy, limit_message, FixedWindowState, check_window, roll_window, policy_retry_after,
  nanos_per_sec,
}

-- A call's two clock readings.
pub record Reading : Type 0 where
  pub now : ℕ
  pub later : ℕ

abbrev pub accepted : Result (Unit {0}) AppError → ℕ
accepted (ok a) = 1
accepted (err e) = 0
accepted panic = 0

-- How many of the calls are admitted, one after the other.
unfoldable pub admitted : RateLimitPolicy → FixedWindowState → List Reading → ℕ
admitted p w [] = 0
admitted p w (r ∷ rs) =
    let (w', answer) = check_window p w r.now r.later in accepted answer + admitted p w' rs

-- The calls of one window's length from the instant `t` on, with clocks that do not run backwards.
abbrev pub InSpan : RateLimitPolicy → ℕ → Reading → Type 0
InSpan p t r = (t ≤ r.now) × (r.now < t + p.window) × (r.now ≤ r.later)

-- Within a window that starts at `t` or later there is no reset in the span.
admitted_fresh :
    (p : RateLimitPolicy) (t : ℕ) (w : FixedWindowState) (rs : List Reading)
    → t ≤ w.started_at
    → w.request_count ≤ p.max_requests
    → All (InSpan p t) rs
    → admitted p w rs + w.request_count ≤ p.max_requests
unfolding admitted check_window roll_window
admitted_fresh p t w [] h c s = omega arith
admitted_fresh p t w (r ∷ rs) h c s = ground (
  arith,
  admitted_fresh p t w rs h c s.1,
  admitted_fresh p t (record w { request_count = w.request_count + 1 }) rs h,
)

-- With clocks that do not run backwards, in any span of one window's length at most twice the configured number of requests is admitted,
-- and that many less those already counted in the current window.
pub admitted_twice :
    (p : RateLimitPolicy) (t : ℕ) (w : FixedWindowState) (rs : List Reading)
    → w.request_count ≤ p.max_requests
    → All (InSpan p t) rs
    → admitted p w rs + w.request_count ≤ 2 * p.max_requests
unfolding admitted check_window roll_window
admitted_twice p t w [] c s = omega arith
admitted_twice p t w (r ∷ rs) c s = ground (
  arith,
  admitted_twice p t w rs c s.1,
  admitted_twice p t (record w { request_count = w.request_count + 1 }) rs,
  admitted_fresh p t (record { started_at = r.later; request_count = 0 }) rs,
  admitted_fresh p t (record { started_at = r.later; request_count = 1 }) rs,
)

-- With a positive limit a call is admitted exactly when the window has room or has run out, and a
-- call that is not admitted changes nothing.
pub check_window_admits :
    (p : RateLimitPolicy) (w : FixedWindowState) (now later : ℕ)
    → 0 < p.max_requests
    → (((check_window p w now later).1 ≡ ok tt)
        ↔ ((w.request_count < p.max_requests) ⊎ (p.window ≤ now - w.started_at)))
      × (((check_window p w now later).1 ≡ ok tt) ⊎ ((check_window p w now later).0 ≡ w))
unfolding check_window roll_window
check_window_admits p w now later h = (ground arith, ground arith)

-- A full window that has not run out is reported with a Retry-After of whole seconds, rounded
-- down; a client that waits exactly that long is admitted just when no fraction was cut off.
pub retry_after_suffices_iff :
    (p : RateLimitPolicy) (w : FixedWindowState) (now later again : ℕ)
    → 0 < p.max_requests
    → w.request_count ≡ p.max_requests
    → w.started_at ≤ now
    → now - w.started_at < p.window
    → let left = p.window - (now - w.started_at) in
      let retry = policy_retry_after p (now - w.started_at) in
      ((check_window p w now later).0 ≡ w)
      × ((e : AppError) × ((check_window p w now later).1 ≡ err e)
          × (e.retry_after_seconds ≡ some retry))
      × (((check_window p w (now + retry * nanos_per_sec) again).1 ≡ ok tt)
          ↔ ((left % nanos_per_sec ≡ 0) ⊎ (left ≤ nanos_per_sec)))
unfolding check_window roll_window policy_retry_after too_many_requests
retry_after_suffices_iff p w now later again h c s o = (
  ground arith,
  (
    too_many_requests (limit_message p) (policy_retry_after p (now - w.started_at)),
    ground arith,
    refl,
  ),
  ground arith,
)
