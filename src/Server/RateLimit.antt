-- ===== src/Server/RateLimit.antt =====
-- server/src/main.rs: the fixed-window rate limiter. Instants and durations are in nanoseconds.
pub mod Window
pub mod Buckets
use agenc_prover.Base.{
  ℕ, ◌+◌, ◌-◌, ◌*◌, ◌/◌, max, Bool, false, ◌++◌, Text, text, decimal, Result, ok, err, leb,
  if◌then◌else◌,
}
use agenc_prover.Server.Errors.{AppError, internal, too_many_requests}

abbrev pub nanos_per_sec : ℕ
nanos_per_sec = 1_000_000_000

abbrev pub Duration : Type 0
Duration = ℕ

abbrev pub from_secs : ℕ → Duration
from_secs s = s * nanos_per_sec

abbrev pub as_secs : Duration → ℕ
as_secs d = d / nanos_per_sec

pub record RateLimitPolicy : Type 0 where
  pub max_requests : ℕ
  pub window : Duration

pub data RateLimitBucket : Type 0 where
  local_dev_bucket protected_bucket : RateLimitBucket

pub record FixedWindowState : Type 0 where
  pub started_at : ℕ
  pub request_count : ℕ

-- A mutex: poisoned when a holder has panicked.
pub record Mutex : Type 0 where
  pub poisoned : Bool
  pub state : FixedWindowState

pub record RateLimiter : Type 0 where
  pub policy : RateLimitPolicy
  pub local_dev : Mutex
  pub protected : Mutex

-- `FixedWindowState::new` at the instant `now`.
unfoldable pub new_window : ℕ → FixedWindowState
new_window now = record { started_at = now; request_count = 0 }

unfoldable pub new_limiter : RateLimitPolicy → ℕ → ℕ → RateLimiter
unfolding new_window
new_limiter policy now now' = record {
  policy = policy;
  local_dev = record { poisoned = false; state = new_window now };
  protected = record { poisoned = false; state = new_window now' };
}

unfoldable pub policy_retry_after : RateLimitPolicy → Duration → ℕ
policy_retry_after p elapsed = max (as_secs (p.window - elapsed)) 1

limit_message : RateLimitPolicy → Text
limit_message p =
    text "proof request rate limit exceeded: max "
    ++ (decimal p.max_requests
        ++ (text " request(s) per " ++ (decimal (as_secs p.window) ++ text " second window")))

-- The window after the reset test. `now` is the clock at `elapsed()`, which is 0 for an instant in
-- the future, and `later` the clock at `Instant::now()`.
unfoldable pub roll_window : RateLimitPolicy → FixedWindowState → ℕ → ℕ → FixedWindowState
unfolding new_window
roll_window p w now later = if leb p.window (now - w.started_at) then new_window later else w

-- The body of `check` under the lock: the new window and the answer.
unfoldable pub check_window :
    RateLimitPolicy → FixedWindowState → ℕ → ℕ → FixedWindowState × Result (Unit {0}) AppError
unfolding limit_message
check_window p w now later =
    let w' = roll_window p w now later in
    if leb p.max_requests w'.request_count
    then (w', err (too_many_requests (limit_message p) (policy_retry_after p (now - w.started_at))))
    else (record w' { request_count = w'.request_count + 1 }, ok tt)

check_mutex : RateLimitPolicy → Mutex → ℕ → ℕ → Mutex × Result (Unit {0}) AppError
check_mutex p m now later =
    if m.poisoned
    then (m, err (internal (text "rate limiter lock poisoned")))
    else (let (w, answer) = check_window p m.state now later in (record m { state = w }, answer))

unfoldable pub check :
    RateLimiter → RateLimitBucket → ℕ → ℕ → RateLimiter × Result (Unit {0}) AppError
unfolding check_mutex
check l local_dev_bucket now later =
    let (m, answer) = check_mutex l.policy l.local_dev now later in
    (record l { local_dev = m }, answer)
check l protected_bucket now later =
    let (m, answer) = check_mutex l.policy l.protected now later in
    (record l { protected = m }, answer)
