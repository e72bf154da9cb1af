-- ===== src/Server/App/UnitTests.antt =====
-- The unit tests of server/src/main.rs, each as the conjunction of its assertions.
--
-- The clock stands still at 0 in them, and the environment variables of the process are a parameter.
use agenc_prover.Base.{
  ℕ, Bool, true, false, ◌&&◌, Option, none, some, Text, text, Result, ok, err, panic, replicate,
  list_eq, ◌==◌, contains,
}
use agenc_prover.Guest.Crates.{Crates}
use agenc_prover.Guest.Journal.{validate_against_witness}
use agenc_prover.Prover.Generate.{default_build, generate_proof, journal_fields, private_witness}
use agenc_prover.Server.App.{World, Request, Reply, oneshot, status, retry_after, page}
use agenc_prover.Server.App.Fixture.{
  valid_request, local_dev_app, protected_app, test_app, test_rate_limiter, get_request,
  post_request, payload, unreachable, failing,
}
use agenc_prover.Server.Auth.{ProveAuth, disabled, api_key, v4, resolve_prove_auth}
use agenc_prover.Server.Config.{prover_api_key_env, prover_local_dev_mode_env}
use agenc_prover.Server.Exposition.{Floats, metrics_content_type}
use agenc_prover.Server.RateLimit.{from_secs}
use agenc_prover.Server.Request.{field_len, output_count, try_into_fixed}
use agenc_prover.Server.Runtime.{AppState, resolve_execution_policy, execution_retry_after}
use agenc_prover.Server.Threads.{returns}

-- The assertions on a reply.
has_status : ℕ → Reply → Bool
has_status code reply = elim (status reply) [ none ↦ false | some c ↦ c == code ]

has_retry_after : Text → Reply → Bool
has_retry_after seconds reply = elim (retry_after reply) [
  | none ↦ false
  | some t ↦ list_eq t seconds
]

body_contains : Text → Reply → Bool
body_contains part (page p) = contains p.body part
body_contains part _ = false

has_content_type : Text → Reply → Bool
has_content_type content_type (page p) = list_eq p.content_type content_type
has_content_type content_type _ = false

module _ (c : Crates) (env : Text → Option Text) (f : Floats) (version : Text) where
  unfoldable pub benchmark_fixture_is_a_valid_semantic_request : Bool
  benchmark_fixture_is_a_valid_semantic_request = elim (try_into_fixed valid_request) [
    | ok fixed ↦ elim (validate_against_witness c (journal_fields fixed) (private_witness fixed)) [
      | ok _ ↦ true
      | err e ↦ false
      | panic ↦ false
    ]
    | err e ↦ false
    | panic ↦ false
  ]

  -- The prover of `ProveRuntime::new` in a build without the feature `production-prover`.
  real : World
  real = record {
    now = 0;
    later = 0;
    prove_fn = λ r. returns (generate_proof c default_build env r) 0;
    late = false;
  }

  send : World → Request → AppState → AppState × Reply
  send = oneshot f version default_build

  unfoldable pub healthz_returns_ok : Bool
  unfolding send get_request has_status real
  healthz_returns_ok = has_status 200 (send real (get_request (text "/healthz")) local_dev_app).1

  unfoldable pub readyz_returns_ok_when_capacity_is_available : Bool
  unfolding send get_request has_status real
  readyz_returns_ok_when_capacity_is_available =
      has_status 200 (send real (get_request (text "/readyz")) local_dev_app).1

  unfoldable pub readyz_returns_service_unavailable_when_saturated : Bool
  unfolding send get_request has_status unreachable
  readyz_returns_service_unavailable_when_saturated =
      has_status 503
        (send (unreachable (text "readyz should not enter prover")) (get_request (text "/readyz"))
          (test_app disabled 0 (from_secs 5) 5 (test_rate_limiter 10 60))).1

  unfoldable pub prove_rejects_invalid_lengths : Bool
  unfolding send post_request has_status real payload
  prove_rejects_invalid_lengths =
      has_status 400
        (send real
          (post_request none
            (payload (replicate 31 1) (replicate output_count (replicate field_len 7))))
          local_dev_app).1

  unfoldable pub prove_rejects_wrong_output_count : Bool
  unfolding send post_request has_status real payload
  prove_rejects_wrong_output_count =
      has_status 400
        (send real
          (post_request none
            (payload (replicate field_len 1) (replicate 3 (replicate field_len 7))))
          local_dev_app).1

  unfoldable pub prove_rejects_invalid_semantics_as_bad_request : Bool
  unfolding send post_request has_status real
  prove_rejects_invalid_semantics_as_bad_request =
      has_status 400
        (send real (post_request none (record valid_request { binding = replicate field_len 0 }))
          local_dev_app).1

  unfoldable pub prove_rejects_missing_bearer_token_when_protected : Bool
  unfolding send post_request has_status real
  prove_rejects_missing_bearer_token_when_protected =
      has_status 401 (send real (post_request none valid_request) protected_app).1

  unfoldable pub prove_rejects_invalid_bearer_token_when_protected : Bool
  unfolding send post_request has_status real
  prove_rejects_invalid_bearer_token_when_protected =
      has_status 401
        (send real (post_request (some (text "Bearer wrong-token")) valid_request) protected_app).1

  unfoldable pub prove_accepts_valid_bearer_token_when_protected : Bool
  unfolding send post_request has_status real
  prove_accepts_valid_bearer_token_when_protected =
      has_status 500
        (send real (post_request (some (text "Bearer test-token")) valid_request) protected_app).1

  unfoldable pub prove_fails_fast_when_saturated : Bool
  unfolding send post_request get_request has_status has_retry_after body_contains unreachable
  prove_fails_fast_when_saturated =
      let world = unreachable (text "saturated requests must not enter prover") in
      let (s, response) =
        send world (post_request none valid_request)
          (test_app disabled 0 (from_secs 5) 5 (test_rate_limiter 10 60)) in
      let (_, metrics) = send world (get_request (text "/metrics")) s in
      has_status 503 response
      && (has_retry_after (text "5") response
          && body_contains (text "agenc_prover_prove_overloaded_total 1") metrics)

  unfoldable pub prove_returns_gateway_timeout_when_request_expires : Bool
  unfolding send post_request has_status has_retry_after failing
  prove_returns_gateway_timeout_when_request_expires =
      let (_, response) =
        send (failing (text "slow proof") true) (post_request none valid_request)
          (test_app disabled 1 10_000_000 1 (test_rate_limiter 10 60)) in
      has_status 504 response && has_retry_after (text "1") response

  unfoldable pub prove_rate_limits_authenticated_requests : Bool
  unfolding send post_request has_status has_retry_after failing
  prove_rate_limits_authenticated_requests =
      let world = failing (text "boom") false in
      let request = post_request (some (text "Bearer test-token")) valid_request in
      let (s, first) =
        send world request
          (test_app (api_key (text "test-token")) 1 (from_secs 5) 5 (test_rate_limiter 1 1)) in
      let (_, second) = send world request s in
      has_status 500 first && (has_status 429 second && has_retry_after (text "1") second)

  unfoldable pub metrics_expose_build_identity_and_runtime_limits : Bool
  unfolding send get_request has_status has_content_type body_contains real
  metrics_expose_build_identity_and_runtime_limits =
      let (_, response) = send real (get_request (text "/metrics")) local_dev_app in
      has_status 200 response
      && (has_content_type metrics_content_type response
          && (body_contains (text "agenc_prover_build_info") response
              && (body_contains (text "agenc_prover_ready 1") response
                  && (body_contains (text "agenc_prover_max_in_flight 1") response
                      && (body_contains (text "agenc_prover_prove_requests_total 0") response
                          && body_contains (text "agenc_prover_proof_jobs_started_total 0")
                              response)))))

unfoldable pub resolve_prove_auth_allows_explicit_loopback_local_dev_mode : Bool
resolve_prove_auth_allows_explicit_loopback_local_dev_mode =
    elim (resolve_prove_auth (v4 127 0 0 1) true none) [
      | ok auth ↦ elim auth [ disabled ↦ true | api_key k ↦ false ]
      | err e ↦ false
      | panic ↦ false
    ]

-- The error's text names that variable.
refuses_with : Text → Result ProveAuth Text → Bool
refuses_with name (ok auth) = false
refuses_with name (err message) = contains message name
refuses_with name panic = false

unfoldable pub resolve_prove_auth_requires_api_key_outside_local_dev_mode : Bool
unfolding refuses_with
resolve_prove_auth_requires_api_key_outside_local_dev_mode =
    refuses_with prover_api_key_env (resolve_prove_auth (v4 127 0 0 1) false none)

unfoldable pub resolve_prove_auth_rejects_local_dev_mode_on_public_bind : Bool
unfolding refuses_with
resolve_prove_auth_rejects_local_dev_mode_on_public_bind =
    refuses_with prover_local_dev_mode_env (resolve_prove_auth (v4 0 0 0 0) true none)

unfoldable pub resolve_execution_policy_uses_expected_values : Bool
resolve_execution_policy_uses_expected_values =
    let policy = resolve_execution_policy 2 600 10 60 in
    policy.max_in_flight == 2
    && (policy.request_timeout == from_secs 600
        && (execution_retry_after policy == 600
            && (policy.rate_limit.max_requests == 10 && policy.rate_limit.window == from_secs 60)))
