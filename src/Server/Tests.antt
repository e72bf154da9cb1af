-- ===== src/Server/Tests.antt =====
-- The theorems on server/src/main.rs at sample inputs.
use agenc_prover.Base.{
  ℕ, ◌+◌, ◌-◌, ◌*◌, ◌%◌, ◌≤◌, ◌≡◌, ◌↔◌, ◌⊎◌, refl, true, false, List, [], ◌∷◌, ◌++◌, Option, none,
  some, Text, text, ok, err, replicate, arith,
}
use agenc_prover.Prover.Generate
use agenc_prover.Server.Errors.{AppError}
use agenc_prover.Server.Request.{ProveRequest, try_into_fixed}
use agenc_prover.Server.Request.Widths.{expected, try_into_fixed-expected}
use agenc_prover.Server.Auth.{
  disabled, api_key, authorize, extract_bearer_token, configured_key, v4, is_loopback,
  resolve_prove_auth, nonempty, trim, trim_start, trim_end, is_empty, is_whitespace,
}
use agenc_prover.Server.Auth.Tokens.{
  IsBearer, authorize_iff, extract_bearer_token_iff, configured_key_authorizes,
  resolve_prove_auth_iff,
}
use agenc_prover.Server.RateLimit.{
  RateLimitPolicy, local_dev_bucket, protected_bucket, FixedWindowState, check_window,
  policy_retry_after, nanos_per_sec,
}
use agenc_prover.Server.RateLimit.Window.{
  admitted, Reading, admitted_twice, retry_after_suffices_iff,
}
use agenc_prover.Server.Metrics.{next_request_id, record_timeout}
use agenc_prover.Server.Runtime.{ExecutionPolicy, AppState, running, metrics}
use agenc_prover.Server.Service.{
  take_job, arrives, returns, panics, joins, expires, Event, run, start,
}
use agenc_prover.Server.Service.Invariant.{IsBalanced}
use agenc_prover.Server.Service.Order.{Arrived, arrive-Arrived}
use agenc_prover.Server.Runtime.{arrive}
use agenc_prover.Server.Service.Capacity.{service_accounts, late_panic_uncounted}

authorize_iff_example :
    ((authorize (api_key (text "key")) (some (text "Bearer key")) ≡ ok protected_bucket) ↔ (
      (extract_bearer_token (some (text "Bearer key")) ≡ some (text "key"))
      × (protected_bucket ≡ protected_bucket)))
    × (authorize disabled (some (text "Bearer key")) ≡ ok local_dev_bucket)
authorize_iff_example = authorize_iff (text "key") (some (text "Bearer key")) protected_bucket

extract_bearer_token_iff_example :
    (extract_bearer_token (some (text "bEARER  key ")) ≡ some (text "key"))
    ↔ IsBearer (text "bEARER  key ") (text "key")
extract_bearer_token_iff_example = extract_bearer_token_iff (text "bEARER  key ") (text "key")

padded_key : configured_key (some (text " key ")) ≡ some (text "key")
unfolding configured_key trim trim_start trim_end is_empty is_whitespace nonempty text
padded_key = refl

configured_key_authorizes_example :
    authorize (api_key (text "key")) (some (text "Bearer " ++ text "key")) ≡ ok protected_bucket
configured_key_authorizes_example =
    configured_key_authorizes (some (text " key ")) (text "key") padded_key

resolve_prove_auth_iff_example : (resolve_prove_auth (v4 127 0 0 1) true none ≡ ok disabled) ↔ (
    ((true ≡ true) × (is_loopback (v4 127 0 0 1) ≡ true) × (disabled ≡ disabled))
    ⊎ ((true ≡ false)
        × ((k : Text) × (◌≡◌ {A = Option Text} none (some k)) × (disabled ≡ api_key k))))
resolve_prove_auth_iff_example = resolve_prove_auth_iff (v4 127 0 0 1) true none disabled

-- A raw request with a salt of 31 bytes.
abbrev short_salt : ProveRequest
short_salt =
    let f = replicate 32 1 in
    record {
      task_pda = f;
      agent_authority = f;
      constraint_hash = f;
      output_commitment = f;
      binding = f;
      nullifier = f;
      output = f ∷ f ∷ f ∷ f ∷ [];
      salt = replicate 31 1;
      agent_secret = f;
    }

try_into_fixed-expected_example : try_into_fixed short_salt ≡ expected short_salt short_salt.output
try_into_fixed-expected_example = try_into_fixed-expected short_salt

-- Two requests in a window of ten seconds.
abbrev pub two_per_ten : RateLimitPolicy
two_per_ten = record { max_requests = 2; window = 10 * nanos_per_sec }

abbrev full_window : FixedWindowState
full_window = record { started_at = 100; request_count = 2 }

abbrev pub reading : ℕ → Reading
reading t = record { now = t; later = t }

-- Two calls before the reset and two after it.
admitted_twice_example :
    admitted two_per_ten
        (record { started_at = 0; request_count = 0 })
        (reading 9_999_999_998
          ∷ reading 9_999_999_999
          ∷ reading 10_000_000_000
          ∷ reading 10_000_000_001
          ∷ [])
      + 0
    ≤ 2 * 2
admitted_twice_example =
    admitted_twice two_per_ten 9_999_999_998 (record { started_at = 0; request_count = 0 })
      (reading 9_999_999_998
        ∷ reading 9_999_999_999
        ∷ reading 10_000_000_000
        ∷ reading 10_000_000_001
        ∷ [])
      (omega arith)
      (
        (omega arith, omega arith, omega arith),
        (
          (omega arith, omega arith, omega arith),
          ((omega arith, omega arith, omega arith), ((omega arith, omega arith, omega arith), tt)),
        ),
      )

-- 9.5 seconds are left, and Retry-After says 9.
retry_after_suffices_iff_example :
    ((check_window two_per_ten full_window 500_000_100 500_000_100).0 ≡ full_window)
    × ((e : AppError) × ((check_window two_per_ten full_window 500_000_100 500_000_100).1 ≡ err e)
        × (e.retry_after_seconds ≡ some (policy_retry_after two_per_ten (500_000_100 - 100))))
    × (((check_window two_per_ten full_window
            (500_000_100 + policy_retry_after two_per_ten (500_000_100 - 100) * nanos_per_sec)
            10_000_000_000).1
          ≡ ok tt)
        ↔ (((10 * nanos_per_sec - (500_000_100 - 100)) % nanos_per_sec ≡ 0)
            ⊎ (10 * nanos_per_sec - (500_000_100 - 100) ≤ nanos_per_sec)))
retry_after_suffices_iff_example =
    retry_after_suffices_iff two_per_ten full_window 500_000_100 500_000_100 10_000_000_000
      (omega arith) refl (omega arith) (omega arith)

-- One slot, a minute, and ten requests a minute.
abbrev pub one_slot : ExecutionPolicy
one_slot = record {
  max_in_flight = 1;
  request_timeout = 60 * nanos_per_sec;
  rate_limit = record { max_requests = 10; window = 60 * nanos_per_sec };
}

abbrev pub full_salt : ProveRequest
full_salt = record short_salt { salt = replicate 32 1 }

-- A request is accepted, a second is refused, and the handler of the first gives up.
abbrev pub busy : List Event
busy =
    arrives none full_salt 10 10
    ∷ arrives none full_salt 20 20
    ∷ returns 7 (err (Generate.prover_failed [])) 5
    ∷ expires 1
    ∷ []

service_accounts_example : IsBalanced (run busy (start disabled one_slot 0 0))
service_accounts_example = service_accounts disabled one_slot 0 0 busy

abbrev pub fixed_request : Generate.ProveRequest
fixed_request =
    let f = replicate 32 1 in
    record {
      task_pda = f;
      agent_authority = f;
      constraint_hash = f;
      output_commitment = f;
      binding = f;
      nullifier = f;
      output = record { output_0 = f; output_1 = f; output_2 = f; output_3 = f };
      salt = f;
      agent_secret = f;
    }

arrive-Arrived_example :
    Arrived
      (start disabled one_slot 0 0)
      ((next_request_id (metrics (start disabled one_slot 0 0))).1)
      none
      full_salt
      10
      10
      (arrive (start disabled one_slot 0 0) none full_salt 10 10)
arrive-Arrived_example = arrive-Arrived (start disabled one_slot 0 0) none full_salt 10 10

-- The service with one running job.
abbrev with_job : AppState
with_job = record (start disabled one_slot 0 0) {
  jobs = record { request_id = 1; fixed = fixed_request; progress = running; awaited = true } ∷ [];
}

job_taken :
    take_job 1 with_job.jobs
    ≡ some
        (record { request_id = 1; fixed = fixed_request; progress = running; awaited = true }, [])
unfolding take_job
job_taken = refl

late_panic_uncounted_example :
    let s' = run (expires 1 ∷ panics 1 ∷ joins 1 (text "panic") ∷ []) with_job in
    (s'.prove_runtime.available ≡ with_job.prove_runtime.available + 1)
    × (metrics s' ≡ record_timeout (metrics with_job))
late_panic_uncounted_example =
    late_panic_uncounted with_job 1 fixed_request [] (text "panic") job_taken
