-- ===== src/Server/App/UnitChecks.antt =====
-- The unit tests of server/src/main.rs, run.
use agenc_prover.Base.{contains, ◌≡◌, true, refl, Option, Text, text, decimal}
use agenc_prover.Guest.Crates.{Crates}
use agenc_prover.Server.Exposition.{Floats}
use agenc_prover.Server.App.{
  status, retry_after, oneshot, route_of, reply_of, prove_alone, awaited_answer, waited, task_end,
}
use agenc_prover.Base.{list_eq}
use agenc_prover.Server.Exposition.{
  readyz, metrics_page, render_metrics, render_prometheus, policy_families, request_families,
  job_families, build_info, write_family, write_sample, write_metric_help, available_slots_of,
}
use agenc_prover.Server.Runtime.{
  new_runtime, resolve_execution_policy, execution_retry_after, arrive, saturated,
}
use agenc_prover.Server.RateLimit.{
  check, check_window, roll_window, new_limiter, new_window, policy_retry_after,
}
use agenc_prover.Server.Auth.{
  authorize, extract_bearer_token, split_once_space, eq_ignore_ascii_case, to_ascii_lowercase,
  is_empty, trim, is_whitespace, resolve_prove_auth, is_loopback,
}
use agenc_prover.Server.Errors.{
  into_response, unauthorized, bad_request, too_many_requests, timeout, overloaded, internal,
}
use agenc_prover.Server.Request.{try_into_fixed, try_into_fixed_output, vec_to_field}
use agenc_prover.Server.Metrics.{
  new_observability, next_request_id, record_request_received, record_overloaded,
}
use agenc_prover.Server.Service.{step, take_job, respond}
use agenc_prover.Server.App.Fixture.{
  valid_request, local_dev_app, protected_app, test_app, test_rate_limiter,
}
use agenc_prover.Prover.Generate.{image_id}
use agenc_prover.Prover.Seal.{render_image_id, join, trusted_risc0_image_id}
use agenc_prover.Server.App.UnitTests.{
  healthz_returns_ok, readyz_returns_ok_when_capacity_is_available,
  readyz_returns_service_unavailable_when_saturated, prove_rejects_invalid_lengths,
  prove_rejects_wrong_output_count, prove_rejects_missing_bearer_token_when_protected,
  prove_rejects_invalid_bearer_token_when_protected,
  prove_returns_gateway_timeout_when_request_expires, prove_rate_limits_authenticated_requests,
  prove_fails_fast_when_saturated, metrics_expose_build_identity_and_runtime_limits,
  resolve_prove_auth_allows_explicit_loopback_local_dev_mode,
  resolve_prove_auth_requires_api_key_outside_local_dev_mode,
  resolve_prove_auth_rejects_local_dev_mode_on_public_bind,
  resolve_execution_policy_uses_expected_values,
}

-- The tests that send requests and read the status of the answers, whatever the hash function is.
requests_lem :
    (c : Crates) (env : Text → Option Text) (f : Floats) (version : Text)
    → (healthz_returns_ok c env f version ≡ true)
      × (readyz_returns_ok_when_capacity_is_available c env f version ≡ true)
      × (readyz_returns_service_unavailable_when_saturated c env f version ≡ true)
      × (prove_rejects_invalid_lengths c env f version ≡ true)
      × (prove_rejects_wrong_output_count c env f version ≡ true)
      × (prove_rejects_missing_bearer_token_when_protected c env f version ≡ true)
      × (prove_rejects_invalid_bearer_token_when_protected c env f version ≡ true)
      × (prove_returns_gateway_timeout_when_request_expires c env f version ≡ true)
      × (prove_rate_limits_authenticated_requests c env f version ≡ true)
unfolding status retry_after oneshot route_of reply_of prove_alone awaited_answer waited task_end
    list_eq text decimal readyz new_runtime resolve_execution_policy arrive check check_window
    roll_window policy_retry_after authorize extract_bearer_token split_once_space
    eq_ignore_ascii_case to_ascii_lowercase is_empty trim is_whitespace into_response unauthorized
    bad_request too_many_requests timeout internal try_into_fixed try_into_fixed_output vec_to_field
    step take_job respond valid_request local_dev_app protected_app test_app test_rate_limiter
    healthz_returns_ok readyz_returns_ok_when_capacity_is_available
    readyz_returns_service_unavailable_when_saturated prove_rejects_invalid_lengths
    prove_rejects_wrong_output_count prove_rejects_missing_bearer_token_when_protected
    prove_rejects_invalid_bearer_token_when_protected
    prove_returns_gateway_timeout_when_request_expires prove_rate_limits_authenticated_requests
requests_lem c env f version = (refl, refl, refl, refl, refl, refl, refl, refl, refl)

-- The tests that read the metrics.
abbrev whole_seconds : Floats
whole_seconds = record { seconds = decimal }

pages_lem :
    (c : Crates) (env : Text → Option Text)
    → (prove_fails_fast_when_saturated c env whole_seconds (text "0.1.0") ≡ true)
      × (metrics_expose_build_identity_and_runtime_limits c env whole_seconds (text "0.1.0") ≡ true)
unfolding status retry_after oneshot route_of reply_of prove_alone awaited_answer list_eq text
    decimal metrics_page render_metrics render_prometheus policy_families request_families
    job_families build_info write_family write_sample write_metric_help available_slots_of
    new_runtime resolve_execution_policy execution_retry_after arrive saturated check check_window
    roll_window new_limiter new_window authorize into_response overloaded try_into_fixed
    try_into_fixed_output vec_to_field new_observability next_request_id record_request_received
    record_overloaded valid_request image_id render_image_id join trusted_risc0_image_id
    local_dev_app test_app test_rate_limiter contains prove_fails_fast_when_saturated
    metrics_expose_build_identity_and_runtime_limits
pages_lem c env = (refl, refl)

-- The tests of the configuration.
settings_lem :
    (resolve_prove_auth_allows_explicit_loopback_local_dev_mode ≡ true)
    × (resolve_prove_auth_requires_api_key_outside_local_dev_mode ≡ true)
    × (resolve_prove_auth_rejects_local_dev_mode_on_public_bind ≡ true)
    × (resolve_execution_policy_uses_expected_values ≡ true)
unfolding text resolve_execution_policy execution_retry_after resolve_prove_auth is_loopback
    contains resolve_prove_auth_allows_explicit_loopback_local_dev_mode
    resolve_prove_auth_requires_api_key_outside_local_dev_mode
    resolve_prove_auth_rejects_local_dev_mode_on_public_bind
    resolve_execution_policy_uses_expected_values
settings_lem = (refl, refl, refl, refl)
