-- ===== src/Server/Exposition/Page.antt =====
-- What a scraper reads on the metrics page of server/src/main.rs.
use agenc_prover.Base.{
  ℕ, ◌≡◌, refl, ◌∙◌, true, List, [], ◌∷◌, ◌++◌, concat, map, All, All-append, some, Text, text,
  decimal, ltb, leb, if◌then◌else◌, arith,
}
use agenc_prover.Prover.Generate.{Build, image_id}
use agenc_prover.Prover.Seal.{ImageId, render_image_id}
use agenc_prover.Server.Runtime.{AppState, ProveRuntime}
use agenc_prover.Server.RateLimit.{as_secs}
use agenc_prover.Server.Exposition.{
  Floats, write_family, build_info, policy_families, request_families, job_families,
  render_prometheus, render_metrics, available_slots_of, metrics_page,
}
use agenc_prover.Server.Exposition.Scrape.{scrape, without, IsPrintable, scrape-families}
use agenc_prover.Server.Exposition.Printable.{
  IsFloatChar, policy_families-IsPrintable, request_families-IsPrintable, job_families-IsPrintable,
}

abbrev pub build_series : Text → ImageId → Text
build_series version id =
    text "agenc_prover_build_info{version=\""
    ++ (version ++ (text "\",image_id=\"" ++ (render_image_id id ++ text "\"}")))

-- The series of the page with their values, from the state that they show.
abbrev pub page_samples : Floats → Text → ImageId → ProveRuntime → List (Text × Text)
page_samples f version id r =
    (build_series version id, text "1")
    ∷ (text "agenc_prover_ready", decimal (if ltb 0 r.available then 1 else 0))
    ∷ (text "agenc_prover_available_slots", decimal r.available)
    ∷ (text "agenc_prover_max_in_flight", decimal r.max_in_flight)
    ∷ (text "agenc_prover_request_timeout_seconds", decimal (as_secs r.request_timeout))
    ∷ (text "agenc_prover_rate_limit_max_requests", decimal r.rate_limiter.policy.max_requests)
    ∷ (
      text "agenc_prover_rate_limit_window_seconds",
      decimal (as_secs r.rate_limiter.policy.window),
    )
    ∷ (text "agenc_prover_prove_requests_total", decimal r.observability.prove_requests_total)
    ∷ (
      text "agenc_prover_prove_unauthorized_total",
      decimal r.observability.prove_unauthorized_total,
    )
    ∷ (text "agenc_prover_prove_bad_request_total", decimal r.observability.prove_bad_request_total)
    ∷ (
      text "agenc_prover_prove_rate_limited_total",
      decimal r.observability.prove_rate_limited_total,
    )
    ∷ (text "agenc_prover_prove_overloaded_total", decimal r.observability.prove_overloaded_total)
    ∷ (text "agenc_prover_prove_timeouts_total", decimal r.observability.prove_timeouts_total)
    ∷ (text "agenc_prover_proof_jobs_in_flight", decimal r.observability.proofs_in_flight)
    ∷ (
      text "agenc_prover_proof_jobs_started_total",
      decimal r.observability.proof_jobs_started_total,
    )
    ∷ (
      text "agenc_prover_proof_jobs_completed_total",
      decimal r.observability.proof_jobs_completed_total,
    )
    ∷ (
      text "agenc_prover_proof_jobs_succeeded_total",
      decimal r.observability.proof_jobs_succeeded_total,
    )
    ∷ (
      text "agenc_prover_proof_jobs_invalid_total",
      decimal r.observability.proof_jobs_invalid_total,
    )
    ∷ (text "agenc_prover_proof_jobs_failed_total", decimal r.observability.proof_jobs_failed_total)
    ∷ (
      text "agenc_prover_proof_duration_seconds_sum",
      f.seconds r.observability.proof_duration_millis_total,
    )
    ∷ (
      text "agenc_prover_proof_duration_seconds_count",
      decimal r.observability.proof_duration_millis_count,
    )
    ∷ []

ready_value : (n : ℕ) → ◌≡◌ {A = ℕ} (if leb n 0 then 0 else 1) (if ltb 0 n then 1 else 0)
ready_value n = ground arith

render_metrics-samples :
    (f : Floats) (version : Text) (build : Build) (r : ProveRuntime) (id : ImageId)
    → without 10 version ≡ true
    → ((n : ℕ) → All IsFloatChar (f.seconds n))
    → image_id build ≡ some id
    → (body : Text) × (render_metrics f version build r ≡ some body)
      × (scrape body ≡ page_samples f version id r)
unfolding render_metrics render_prometheus available_slots_of policy_families request_families
    job_families build_info
render_metrics-samples f version build r id h hf e =
    let policies =
      policy_families version (render_image_id id) r.available r.max_in_flight r.request_timeout
        r.rate_limiter.policy in
    let requests = request_families r.observability in
    let jobs = job_families f r.observability in
    let families = policies ++ (requests ++ jobs) in
    let printable =
      All-append IsPrintable policies (requests ++ jobs)
        (policy_families-IsPrintable version id r h)
        (All-append IsPrintable requests jobs (request_families-IsPrintable r.observability)
          (job_families-IsPrintable f r.observability hf)) in
    (
      concat (map write_family families),
      rw e refl,
      scrape-families families printable ∙ rw (ready_value r.available) refl,
    )

-- For every state, a build whose image id does not panic, a version without a line feed, and
-- seconds that are printed with digits and points only, `/metrics` answers 200 with a text in the
-- Prometheus content type. A scraper that skips the comment lines and cuts each other line at its
-- last space reads from the text exactly the listed series in this order, each with the decimal of
-- the state's number that it is named for; the ready sample is 1 exactly when a permit is free.
pub scrape-metrics_page :
    (f : Floats) (version : Text) (build : Build) (s : AppState) (id : ImageId)
    → without 10 version ≡ true
    → ((n : ℕ) → All IsFloatChar (f.seconds n))
    → image_id build ≡ some id
    → (body : Text) × (metrics_page f version build s
        ≡ some (record {
          status = 200;
          content_type = text "text/plain; version=0.0.4; charset=utf-8";
          body = body;
        }))
      × (scrape body ≡ page_samples f version id s.prove_runtime)
unfolding metrics_page
scrape-metrics_page f version build s id h hf e =
    let (body, rendered, read) = render_metrics-samples f version build s.prove_runtime id h hf e in
    (body, rw rendered refl, read)
