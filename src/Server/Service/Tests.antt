-- ===== src/Server/Service/Tests.antt =====
-- The handler, the limiter and the probes of server/src/main.rs over sample events.
use agenc_prover.Base.{
  ◌*◌, ◌≤◌, List, [], ◌∷◌, none, err, text, arith, ℕ, ◌+◌, ◌≡◌, ◌↔◌, refl, true,
}
use agenc_prover.Prover.Generate
use agenc_prover.Server.Auth.{disabled, api_key, authorize, extract_bearer_token}
use agenc_prover.Server.Exposition.{readyz}
use agenc_prover.Server.Runtime.{AppState, pending, failure, spawn, arrive, authorized}
use agenc_prover.Server.Errors.{AppError, unauthorized}
use agenc_prover.Server.RateLimit.{
  local_dev_bucket, protected_bucket, RateLimitBucket, new_limiter, new_window,
}
use agenc_prover.Server.RateLimit.Buckets.{
  Call, verdicts, verdicts_of, window_verdicts, readings_of, verdicts_of-new_limiter,
}
use agenc_prover.Server.Service.Rate.{jobs_started, jobs_started_le}
use agenc_prover.Server.Service.Denials.{Refuses}
use agenc_prover.Server.Service.Refusals.{step-refusal}
use agenc_prover.Server.Service.{Event, arrives, returns, run, start, step}
use agenc_prover.Server.Service.Invariant.{running_count}
use agenc_prover.Server.Service.Ready.{readyz_iff}
use agenc_prover.Server.Tests.{one_slot, busy, fixed_request, full_salt, reading, two_per_ten}

-- A job runs and fills the only slot.
abbrev full : AppState
full = run busy (start disabled one_slot 0 0)

readyz_iff_example :
    (((readyz full).0 ≡ 200) ↔ ((spawn full 3 fixed_request).1 ≡ pending))
    × (((readyz full).0 ≡ 503) ↔ (running_count full.jobs ≡ 1))
    × (((readyz full).1.ready ≡ true) ↔ ((readyz full).0 ≡ 200))
    × ((readyz full).1.max_in_flight ≡ 1)
    × ((readyz full).1.available_slots + running_count full.jobs ≡ (readyz full).1.max_in_flight)
readyz_iff_example = readyz_iff disabled one_slot 0 0 busy 3 fixed_request

abbrev call : RateLimitBucket → ℕ → Call
call b t = record { bucket = b; reading = reading t }

-- Calls for both buckets in turn.
abbrev mixed : List Call
mixed =
    call local_dev_bucket 10
    ∷ call protected_bucket 20
    ∷ call local_dev_bucket 30
    ∷ call local_dev_bucket 40
    ∷ call protected_bucket 50
    ∷ []

verdicts_of-new_limiter_example :
    verdicts_of protected_bucket (verdicts (new_limiter two_per_ten 0 5) mixed)
    ≡ window_verdicts two_per_ten (new_window 5) (readings_of protected_bucket mixed)
verdicts_of-new_limiter_example = verdicts_of-new_limiter two_per_ten 0 5 protected_bucket mixed

-- The first job ends, and two requests come around the end of a window.
abbrev later_events : List Event
later_events =
    returns 1 (err (Generate.prover_failed [])) 5
    ∷ arrives none full_salt 59_999_999_990 59_999_999_990
    ∷ arrives none full_salt 60_000_000_010 60_000_000_010
    ∷ []

jobs_started_le_example : jobs_started later_events full ≤ 2 * 10
jobs_started_le_example =
    jobs_started_le disabled one_slot 0 0 busy later_events 59_999_999_990
      (tt, ((omega arith, omega arith, omega arith), ((omega arith, omega arith, omega arith), tt)))

-- A request without a key.
abbrev no_key : AppError
no_key = unauthorized (text "missing bearer token for /prove")

abbrev locked : AppState
locked = run [] (start (api_key (text "key")) one_slot 0 0)

no_key_answer : (step (arrives none full_salt 10 10) locked).1 ≡ failure no_key
unfolding step run start arrive authorized authorize extract_bearer_token
no_key_answer = refl

step-refusal_example : Refuses (arrives none full_salt 10 10) no_key
step-refusal_example =
    step-refusal (api_key (text "key")) one_slot 0 0 [] (arrives none full_salt 10 10) no_key
      no_key_answer
