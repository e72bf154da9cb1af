-- ===== src/Server/Exposition.antt =====
-- server/src/main.rs: `/healthz`, `/readyz`, and the text that `/metrics` shows.
mod Tests
pub mod Printable
pub mod Page
pub mod Scrape
use agenc_prover.Base.{
  ℕ, ◌-◌, ◌/◌, ◌<◌, Bool, true, false, not, List, [], ◌∷◌, ◌++◌, concat, map, Option, none, some,
  Text, text, decimal, leb, if◌then◌else◌,
}
use agenc_prover.Base.Panics.{◌>>=◌}
use agenc_prover.Prover.Generate.{Build, image_id}
use agenc_prover.Prover.Seal.{ImageId, render_image_id}
use agenc_prover.Server.Errors.{StatusCode}
use agenc_prover.Server.Metrics.{Observability}
use agenc_prover.Server.RateLimit.{Duration, RateLimitPolicy, as_secs}
use agenc_prover.Server.Runtime.{AppState, ProveRuntime}

abbrev pub service_name : Text
service_name = text "agenc-prover-server"

abbrev pub metrics_content_type : Text
metrics_content_type = text "text/plain; version=0.0.4; charset=utf-8"

pub record HealthResponse : Type 0 where
  pub ok : Bool
  pub service : Text

pub record ReadyResponse : Type 0 where
  pub ok : Bool
  pub service : Text
  pub ready : Bool
  pub available_slots : ℕ
  pub max_in_flight : ℕ

unfoldable pub healthz : HealthResponse
healthz = record { ok = true; service = service_name }

unfoldable pub available_slots_of : ProveRuntime → ℕ
available_slots_of r = r.available

unfoldable pub readyz : AppState → StatusCode × ReadyResponse
unfolding available_slots_of
readyz s =
    let available_slots = available_slots_of s.prove_runtime in
    let ready = not (leb available_slots 0) in
    (
      if ready then 200 else 503,
      record {
        ok = ready;
        service = service_name;
        ready = ready;
        available_slots = available_slots;
        max_in_flight = s.prove_runtime.max_in_flight;
      },
    )

-- What the code uses of the standard library's floating point: the text that `{:.3}` gives for a
-- count of milliseconds `as f64 / 1000.0`.
pub record Floats : Type 0 where
  pub seconds : ℕ → Text

-- A metric's name, help and kind, and its samples: a series and a value each.
pub record Family : Type 0 where
  pub name : Text
  pub help : Text
  pub kind : Text
  pub samples : List (Text × Text)

abbrev single : Text → Text → Text → Text → Family
single name help kind value = record {
  name = name;
  help = help;
  kind = kind;
  samples = (name, value) ∷ [];
}

-- `writeln!`, with the line feed.
abbrev pub writeln : Text → Text
writeln line = line ++ 10 ∷ []

unfoldable pub write_metric_help : Text → Text → Text → Text
write_metric_help name help kind =
    writeln (text "# HELP " ++ (name ++ (text " " ++ help)))
    ++ writeln (text "# TYPE " ++ (name ++ (text " " ++ kind)))

unfoldable pub write_sample : Text × Text → Text
write_sample (series, value) = writeln (series ++ 0x20 ∷ value)

unfoldable pub write_family : Family → Text
write_family m = write_metric_help m.name m.help m.kind ++ concat (map write_sample m.samples)

unfoldable pub build_info : Text → Text → Text
build_info version image_id =
    text "agenc_prover_build_info{version=\""
    ++ (version ++ (text "\",image_id=\"" ++ (image_id ++ text "\"}")))

unfoldable pub policy_families :
    Text → Text → (available_slots max_in_flight : ℕ) → Duration → RateLimitPolicy → List Family
policy_families version image_id available_slots max_in_flight request_timeout policy =
    record {
      name = text "agenc_prover_build_info";
      help = text "Build information for the prover binary.";
      kind = text "gauge";
      samples = (build_info version image_id, text "1") ∷ [];
    }
    ∷ single (text "agenc_prover_ready")
        (text "Whether the prover can admit at least one more proof request.") (text "gauge")
        (decimal (if leb available_slots 0 then 0 else 1))
    ∷ single (text "agenc_prover_available_slots")
        (text "Available proof admission slots right now.") (text "gauge") (decimal available_slots)
    ∷ single (text "agenc_prover_max_in_flight")
        (text "Configured maximum number of in-flight proof jobs.") (text "gauge")
        (decimal max_in_flight)
    ∷ single (text "agenc_prover_request_timeout_seconds")
        (text "Configured HTTP request timeout for /prove.") (text "gauge")
        (decimal (as_secs request_timeout))
    ∷ single (text "agenc_prover_rate_limit_max_requests")
        (text "Configured max /prove requests per rate-limit window.") (text "gauge")
        (decimal policy.max_requests)
    ∷ single (text "agenc_prover_rate_limit_window_seconds")
        (text "Configured /prove fixed-window rate-limit duration in seconds.") (text "gauge")
        (decimal (as_secs policy.window))
    ∷ []

unfoldable pub request_families : Observability → List Family
request_families m =
    single (text "agenc_prover_prove_requests_total") (text "Total HTTP /prove requests received.")
      (text "counter") (decimal m.prove_requests_total)
    ∷ single (text "agenc_prover_prove_unauthorized_total")
        (text "Total /prove requests rejected for missing or invalid auth.") (text "counter")
        (decimal m.prove_unauthorized_total)
    ∷ single (text "agenc_prover_prove_bad_request_total")
        (text "Total /prove requests rejected as bad requests before proving.") (text "counter")
        (decimal m.prove_bad_request_total)
    ∷ single (text "agenc_prover_prove_rate_limited_total")
        (text "Total /prove requests rejected by rate limiting.") (text "counter")
        (decimal m.prove_rate_limited_total)
    ∷ single (text "agenc_prover_prove_overloaded_total")
        (text "Total /prove requests rejected because the prover was saturated.") (text "counter")
        (decimal m.prove_overloaded_total)
    ∷ single (text "agenc_prover_prove_timeouts_total")
        (text "Total /prove HTTP requests that timed out while the proof kept running.")
        (text "counter") (decimal m.prove_timeouts_total)
    ∷ []

unfoldable pub job_families : Floats → Observability → List Family
job_families f m =
    single (text "agenc_prover_proof_jobs_in_flight")
      (text "Current number of proof jobs occupying execution slots.") (text "gauge")
      (decimal m.proofs_in_flight)
    ∷ single (text "agenc_prover_proof_jobs_started_total")
        (text "Total proof jobs admitted to execution.") (text "counter")
        (decimal m.proof_jobs_started_total)
    ∷ single (text "agenc_prover_proof_jobs_completed_total")
        (text "Total proof jobs that reached a terminal result.") (text "counter")
        (decimal m.proof_jobs_completed_total)
    ∷ single (text "agenc_prover_proof_jobs_succeeded_total")
        (text "Total proof jobs that completed successfully.") (text "counter")
        (decimal m.proof_jobs_succeeded_total)
    ∷ single (text "agenc_prover_proof_jobs_invalid_total")
        (text "Total proof jobs rejected for invalid witness semantics.") (text "counter")
        (decimal m.proof_jobs_invalid_total)
    ∷ single (text "agenc_prover_proof_jobs_failed_total")
        (text "Total proof jobs that failed internally.") (text "counter")
        (decimal m.proof_jobs_failed_total)
    ∷ record {
      name = text "agenc_prover_proof_duration_seconds";
      help = text "End-to-end proof job duration in seconds.";
      kind = text "summary";
      samples =
          (text "agenc_prover_proof_duration_seconds_sum", f.seconds m.proof_duration_millis_total)
          ∷ (
            text "agenc_prover_proof_duration_seconds_count",
            decimal m.proof_duration_millis_count,
          )
          ∷ [];
    }
    ∷ []

-- The body, whose families are written one after the other; `none` is a panic of `image_id`.
unfoldable pub render_prometheus :
    Floats
    → Text
    → Build
    → Observability
    → (available_slots max_in_flight : ℕ) → Duration
    → RateLimitPolicy
    → Option Text
render_prometheus f version build m available_slots max_in_flight request_timeout policy = do
  id ← image_id build
  let families =
      policy_families version (render_image_id id) available_slots max_in_flight request_timeout
        policy
      ++ (request_families m ++ job_families f m)
  some (concat (map write_family families))

unfoldable pub render_metrics : Floats → Text → Build → ProveRuntime → Option Text
unfolding available_slots_of
render_metrics f version build r =
    render_prometheus f version build r.observability (available_slots_of r) r.max_in_flight
      r.request_timeout r.rate_limiter.policy

pub record MetricsResponse : Type 0 where
  pub status : StatusCode
  pub content_type : Text
  pub body : Text

unfoldable pub metrics_page : Floats → Text → Build → AppState → Option MetricsResponse
metrics_page f version build s = do
  body ← render_metrics f version build s.prove_runtime
  some (record { status = 200; content_type = metrics_content_type; body = body })
