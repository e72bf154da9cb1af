-- ===== src/Server/Service/Rate.antt =====
-- How many jobs server/src/main.rs starts over time.
use mathlib.Core.Path.{subst}
use agenc_prover.Base.{
  ℕ, ◌+◌, ◌*◌, ◌≤◌, ◌≡◌, refl, sym, ap, ◌∙◌, inl, inr, List, [], ◌∷◌, All, arith,
}
use agenc_prover.Server.Auth.{ProveAuth, disabled, api_key}
use agenc_prover.Server.RateLimit.{RateLimitPolicy, RateLimitBucket, FixedWindowState, check_window}
use agenc_prover.Server.RateLimit.Window.{Reading, InSpan, admitted, accepted, admitted_twice}
use agenc_prover.Server.RateLimit.Buckets.{Windows, limiter, with_window, with_window_same, started}
use agenc_prover.Server.Runtime.{AppState}
use agenc_prover.Server.Service.{
  Event, arrives, returns, panics, joins, expires, disconnects, step, run,
}
use agenc_prover.Server.Runtime.{ExecutionPolicy, new_runtime}
use agenc_prover.Server.RateLimit.{new_limiter, new_window, roll_window}
use agenc_prover.Server.Service.{start}
use agenc_prover.Server.Service.Asked.{starts, OnArrival, bucket_of, limiter_of, step-IsAsked}
use agenc_prover.Server.Service.Limit.{step-settings}

-- How many jobs the events start, one after the other.
unfoldable pub jobs_started : List Event → AppState → ℕ
unfolding step
jobs_started [] s = 0
jobs_started (e ∷ es) s = let (s₁, answer) = step e s in starts e answer + jobs_started es s₁

-- Readings in the span of which the window `w` admits as many as there are starts, or more.
record IsCovered (p : RateLimitPolicy) (t : ℕ) (w : FixedWindowState) (count : ℕ) : Type 0 where
  readings : List Reading
  all_in_span : All (InSpan p t) readings
  covers : count ≤ admitted p w readings

asked-IsCovered :
    (p : RateLimitPolicy) (t : ℕ) (w : FixedWindowState) (r : Reading) (m n : ℕ)
    → InSpan p t r
    → m ≤ accepted ((check_window p w r.now r.later).1)
    → IsCovered p t ((check_window p w r.now r.later).0) n
    → IsCovered p t w (m + n)
unfolding admitted
asked-IsCovered p t w r m n hr hm h = record {
  readings = r ∷ h.readings;
  all_in_span = (hr, h.all_in_span);
  covers = omega (arith, hm, h.covers);
}

run-IsCovered :
    (p : RateLimitPolicy) (t : ℕ) (b : RateLimitBucket) (ws : Windows) (es : List Event)
    (s : AppState)
    → limiter_of s ≡ limiter p ws
    → bucket_of s.prove_auth ≡ b
    → All (OnArrival (InSpan p t)) es
    → IsCovered p t (ws b) (jobs_started es s)
unfolding jobs_started admitted
run-IsCovered p t b ws [] s hl hb hs = record {
  readings = [];
  all_in_span = tt;
  covers = omega arith;
}
run-IsCovered p t b ws (e ∷ es) s hl hb (h, hs) =
    let s₁ = (step e s).0 in
    let same = ap (λ x. bucket_of x.0) (step-settings e s) ∙ hb in
    elim (step-IsAsked (InSpan p t) p b ws e s hl hb h) [
      | inl u ↦
          subst (IsCovered p t (ws b)) (omega (arith, u.no_start))
            (run-IsCovered p t b ws es s₁ u.unasked_limiter same hs)
      | inr a ↦
          (let w = (check_window p (ws b) a.reading.now a.reading.later).0 in
            asked-IsCovered p t (ws b) a.reading _ _ a.allowed a.start_admitted (
              subst (λ v. IsCovered p t v (jobs_started es s₁)) (with_window_same ws b w)
                (run-IsCovered p t b (with_window ws b w) es s₁ a.asked_limiter same hs)))
    ]

any_event : (e : Event) → OnArrival (λ _. Unit {0}) e
any_event (arrives header request now later) = tt
any_event (returns id result duration) = tt
any_event (panics id) = tt
any_event (joins id message) = tt
any_event (expires id) = tt
any_event (disconnects id) = tt

-- The limiter has no poisoned lock, and the window of the bucket counts at most what it admits.
pub record HasRoom (p : RateLimitPolicy) (b : RateLimitBucket) (s : AppState) : Type 0 where
  pub windows : Windows
  pub open_locks : limiter_of s ≡ limiter p windows
  one_bucket : bucket_of s.prove_auth ≡ b
  room : (windows b).request_count ≤ p.max_requests

check_window-room :
    (p : RateLimitPolicy) (w : FixedWindowState) (now later : ℕ)
    → w.request_count ≤ p.max_requests
    → (check_window p w now later).0.request_count ≤ p.max_requests
unfolding check_window roll_window
check_window-room p w now later h = ground arith

step-HasRoom :
    (p : RateLimitPolicy) (b : RateLimitBucket) (e : Event) (s : AppState)
    → HasRoom p b s
    → HasRoom p b ((step e s).0)
step-HasRoom p b e s h =
    let ws = h.windows in
    let same = ap (λ x. bucket_of x.0) (step-settings e s) ∙ h.one_bucket in
    elim (step-IsAsked (λ _. Unit {0}) p b ws e s h.open_locks h.one_bucket (any_event e)) [
      | inl u ↦ record {
        windows = ws;
        open_locks = u.unasked_limiter;
        one_bucket = same;
        room = h.room;
      }
      | inr a ↦
          (let w = (check_window p (ws b) a.reading.now a.reading.later).0 in
            record {
              windows = with_window ws b w;
              open_locks = a.asked_limiter;
              one_bucket = same;
              room =
                  subst (λ v. v.request_count ≤ p.max_requests) (sym (with_window_same ws b w))
                    (check_window-room p (ws b) a.reading.now a.reading.later h.room);
            })
    ]

pub run-HasRoom :
    (p : RateLimitPolicy) (b : RateLimitBucket) (es : List Event) (s : AppState)
    → HasRoom p b s
    → HasRoom p b (run es s)
unfolding run
run-HasRoom p b [] s h = h
run-HasRoom p b (e ∷ es) s h = run-HasRoom p b es ((step e s).0) (step-HasRoom p b e s h)

pub start-HasRoom :
    (auth : ProveAuth) (policy : ExecutionPolicy) (now now' : ℕ)
    → HasRoom policy.rate_limit (bucket_of auth) (start auth policy now now')
unfolding start new_runtime new_limiter new_window
start-HasRoom auth policy now now' = record {
  windows = λ b. new_window (started now now' b);
  open_locks = refl;
  one_bucket = refl;
  room = elim auth [ disabled ↦ omega arith | api_key _ ↦ omega arith ];
}

-- In a service that has run through any events, the events of one span start at most twice the
-- configured number of requests per window as jobs, when every arrival among them reads the clock
-- within one window's length from the instant `t` on, and its second reading is not before its
-- first.
pub jobs_started_le :
    (auth : ProveAuth) (policy : ExecutionPolicy) (now now' : ℕ) (before es : List Event) (t : ℕ)
    → All (OnArrival (InSpan policy.rate_limit t)) es
    → jobs_started es (run before (start auth policy now now')) ≤ 2 * policy.rate_limit.max_requests
jobs_started_le auth policy now now' before es t h =
    let p = policy.rate_limit in
    let b = bucket_of auth in
    let s = run before (start auth policy now now') in
    let reached =
      run-HasRoom p b before (start auth policy now now') (start-HasRoom auth policy now now') in
    let covered =
      run-IsCovered p t b reached.windows es s reached.open_locks reached.one_bucket h in
    omega (
      arith,
      covered.covers,
      admitted_twice p t (reached.windows b) covered.readings reached.room covered.all_in_span,
    )
