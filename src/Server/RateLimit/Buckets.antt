-- ===== src/Server/RateLimit/Buckets.antt =====
-- The two buckets of the rate limiter of server/src/main.rs, each as a window of its own.
use agenc_prover.Base.{ℕ, ◌≡◌, refl, ap, false, List, [], ◌∷◌, Result}
use agenc_prover.Server.Errors.{AppError}
use agenc_prover.Server.RateLimit.{
  RateLimitPolicy, FixedWindowState, RateLimiter, RateLimitBucket, local_dev_bucket,
  protected_bucket, new_window, new_limiter, check_window, check_mutex, check,
}
use agenc_prover.Server.RateLimit.Window.{Reading}

abbrev pub Verdict : Type 0
Verdict = Result (Unit {0}) AppError

-- A call of `check`.
pub record Call : Type 0 where
  pub bucket : RateLimitBucket
  pub reading : Reading

-- The specification: a window for each bucket, and nothing else.
abbrev pub Windows : Type 0
Windows = RateLimitBucket → FixedWindowState

-- What a lone window answers to the readings, one after the other.
unfoldable pub window_verdicts : RateLimitPolicy → FixedWindowState → List Reading → List Verdict
window_verdicts p w [] = []
window_verdicts p w (r ∷ rs) =
    let (w', verdict) = check_window p w r.now r.later in verdict ∷ window_verdicts p w' rs

-- What the limiter answers to the calls, one after the other, each with its bucket.
unfoldable pub verdicts : RateLimiter → List Call → List (RateLimitBucket × Verdict)
verdicts l [] = []
verdicts l (c ∷ cs) =
    let (l', verdict) = check l c.bucket c.reading.now c.reading.later in
    (c.bucket, verdict) ∷ verdicts l' cs

-- `x` in front when the two buckets are the same.
abbrev keep : {A : Type 0} → RateLimitBucket → RateLimitBucket → A → List A → List A
keep local_dev_bucket local_dev_bucket x xs = x ∷ xs
keep local_dev_bucket protected_bucket x xs = xs
keep protected_bucket local_dev_bucket x xs = xs
keep protected_bucket protected_bucket x xs = x ∷ xs

-- The readings of the calls for a bucket, and the verdicts on them.
unfoldable pub readings_of : RateLimitBucket → List Call → List Reading
readings_of b [] = []
readings_of b (c ∷ cs) = keep b c.bucket c.reading (readings_of b cs)

unfoldable pub verdicts_of : RateLimitBucket → List (RateLimitBucket × Verdict) → List Verdict
verdicts_of b [] = []
verdicts_of b ((c, verdict) ∷ vs) = keep b c verdict (verdicts_of b vs)

-- A limiter whose locks nobody has poisoned, with these windows.
abbrev pub limiter : RateLimitPolicy → Windows → RateLimiter
limiter p ws = record {
  policy = p;
  local_dev = record { poisoned = false; state = ws local_dev_bucket };
  protected = record { poisoned = false; state = ws protected_bucket };
}

-- The windows after another window has come in for one bucket.
abbrev pub with_window : Windows → RateLimitBucket → FixedWindowState → Windows
with_window ws local_dev_bucket w local_dev_bucket = w
with_window ws local_dev_bucket w protected_bucket = ws protected_bucket
with_window ws protected_bucket w local_dev_bucket = ws local_dev_bucket
with_window ws protected_bucket w protected_bucket = w

-- A call is one step of its bucket's window.
pub check-limiter :
    (p : RateLimitPolicy) (ws : Windows) (b : RateLimitBucket) (now later : ℕ)
    → let (w, verdict) = check_window p (ws b) now later in
      check (limiter p ws) b now later ≡ (limiter p (with_window ws b w), verdict)
unfolding check check_mutex
check-limiter p ws local_dev_bucket now later = refl
check-limiter p ws protected_bucket now later = refl

pub with_window_same :
    (ws : Windows) (b : RateLimitBucket) (w : FixedWindowState) → with_window ws b w b ≡ w
with_window_same ws local_dev_bucket w = refl
with_window_same ws protected_bucket w = refl

-- The claim for the calls `cs`, from any windows.
abbrev AsWindows : RateLimitPolicy → RateLimitBucket → List Call → Type 0
AsWindows p b cs =
    (ws : Windows)
    → verdicts_of b (verdicts (limiter p ws) cs) ≡ window_verdicts p (ws b) (readings_of b cs)

call-AsWindows :
    (p : RateLimitPolicy) (ws : Windows) (b d : RateLimitBucket) (r : Reading) (cs : List Call)
    → AsWindows p b cs
    → verdicts_of b (verdicts (limiter p ws) (record { bucket = d; reading = r } ∷ cs))
      ≡ window_verdicts p (ws b) (readings_of b (record { bucket = d; reading = r } ∷ cs))
unfolding verdicts verdicts_of readings_of window_verdicts check check_mutex
call-AsWindows p ws local_dev_bucket local_dev_bucket r cs h =
    let (w, verdict) = check_window p (ws local_dev_bucket) r.now r.later in
    ap (λ vs. verdict ∷ vs) (h (with_window ws local_dev_bucket w))
call-AsWindows p ws local_dev_bucket protected_bucket r cs h =
    h (with_window ws protected_bucket ((check_window p (ws protected_bucket) r.now r.later).0))
call-AsWindows p ws protected_bucket local_dev_bucket r cs h =
    h (with_window ws local_dev_bucket ((check_window p (ws local_dev_bucket) r.now r.later).0))
call-AsWindows p ws protected_bucket protected_bucket r cs h =
    let (w, verdict) = check_window p (ws protected_bucket) r.now r.later in
    ap (λ vs. verdict ∷ vs) (h (with_window ws protected_bucket w))

calls-AsWindows : (p : RateLimitPolicy) (b : RateLimitBucket) (cs : List Call) → AsWindows p b cs
unfolding verdicts verdicts_of readings_of window_verdicts
calls-AsWindows p b [] ws = refl
calls-AsWindows p b (c ∷ cs) ws =
    call-AsWindows p ws b c.bucket c.reading cs (calls-AsWindows p b cs)

-- The instant at which a new limiter starts a bucket's window.
abbrev pub started : (now now' : ℕ) → RateLimitBucket → ℕ
started now now' local_dev_bucket = now
started now now' protected_bucket = now'

-- From a new limiter, whatever calls come for the two buckets and in whatever order, the verdicts on
-- one bucket's calls are those of a window of its own that sees these calls only, and starts empty
-- at the instant of its creation.
pub verdicts_of-new_limiter :
    (p : RateLimitPolicy) (now now' : ℕ) (b : RateLimitBucket) (cs : List Call)
    → verdicts_of b (verdicts (new_limiter p now now') cs)
      ≡ window_verdicts p (new_window (started now now' b)) (readings_of b cs)
unfolding new_limiter
verdicts_of-new_limiter p now now' local_dev_bucket cs =
    calls-AsWindows p local_dev_bucket cs (λ c. new_window (started now now' c))
verdicts_of-new_limiter p now now' protected_bucket cs =
    calls-AsWindows p protected_bucket cs (λ c. new_window (started now now' c))
