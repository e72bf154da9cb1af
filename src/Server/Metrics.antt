-- ===== src/Server/Metrics.antt =====
-- server/src/main.rs: the counters of `Observability`. Each is a 64-bit atomic, which wraps.
use agenc_prover.Base.{ℕ, ◌+◌, ◌-◌, ◌/◌, ◌%◌, ◌^◌, Result, ok, err}
use agenc_prover.Prover.Generate.{ProveResponse, ProveError, invalid_request}

pub record Observability : Type 0 where
  pub request_sequence : ℕ
  pub prove_requests_total : ℕ
  pub prove_unauthorized_total : ℕ
  pub prove_bad_request_total : ℕ
  pub prove_rate_limited_total : ℕ
  pub prove_overloaded_total : ℕ
  pub prove_timeouts_total : ℕ
  pub proof_jobs_started_total : ℕ
  pub proof_jobs_completed_total : ℕ
  pub proof_jobs_succeeded_total : ℕ
  pub proof_jobs_invalid_total : ℕ
  pub proof_jobs_failed_total : ℕ
  pub proof_duration_millis_total : ℕ
  pub proof_duration_millis_count : ℕ
  pub proofs_in_flight : ℕ

unfoldable pub new_observability : Observability
new_observability = record {
  request_sequence = 0;
  prove_requests_total = 0;
  prove_unauthorized_total = 0;
  prove_bad_request_total = 0;
  prove_rate_limited_total = 0;
  prove_overloaded_total = 0;
  prove_timeouts_total = 0;
  proof_jobs_started_total = 0;
  proof_jobs_completed_total = 0;
  proof_jobs_succeeded_total = 0;
  proof_jobs_invalid_total = 0;
  proof_jobs_failed_total = 0;
  proof_duration_millis_total = 0;
  proof_duration_millis_count = 0;
  proofs_in_flight = 0;
}

abbrev pub u64_mod : ℕ
u64_mod = 2 ^ 64

-- `fetch_add(n)` and `fetch_sub(1)`; `usize` has 64 bits.
abbrev pub fetch_add : ℕ → ℕ → ℕ
fetch_add counter n = (counter + n) % u64_mod

abbrev pub fetch_sub : ℕ → ℕ
fetch_sub counter = (counter + u64_mod - 1) % u64_mod

-- The new counters and the request's id, `fetch_add(1) + 1`.
unfoldable pub next_request_id : Observability → Observability × ℕ
next_request_id m =
    (record m { request_sequence = fetch_add m.request_sequence 1 }, fetch_add m.request_sequence 1)

unfoldable pub record_request_received : Observability → Observability
record_request_received m = record m { prove_requests_total = fetch_add m.prove_requests_total 1 }

unfoldable pub record_unauthorized : Observability → Observability
record_unauthorized m = record m {
  prove_unauthorized_total = fetch_add m.prove_unauthorized_total 1;
}

unfoldable pub record_bad_request : Observability → Observability
record_bad_request m = record m { prove_bad_request_total = fetch_add m.prove_bad_request_total 1 }

unfoldable pub record_rate_limited : Observability → Observability
record_rate_limited m = record m {
  prove_rate_limited_total = fetch_add m.prove_rate_limited_total 1;
}

unfoldable pub record_overloaded : Observability → Observability
record_overloaded m = record m { prove_overloaded_total = fetch_add m.prove_overloaded_total 1 }

unfoldable pub record_timeout : Observability → Observability
record_timeout m = record m { prove_timeouts_total = fetch_add m.prove_timeouts_total 1 }

unfoldable pub record_proof_job_started : Observability → Observability
record_proof_job_started m = record m {
  proof_jobs_started_total = fetch_add m.proof_jobs_started_total 1;
  proofs_in_flight = fetch_add m.proofs_in_flight 1;
}

unfoldable pub record_proof_job_failed : Observability → Observability
record_proof_job_failed m = record m {
  proof_jobs_completed_total = fetch_add m.proof_jobs_completed_total 1;
  proof_jobs_failed_total = fetch_add m.proof_jobs_failed_total 1;
  proofs_in_flight = fetch_sub m.proofs_in_flight;
}

-- The counter that the result of a job is counted in.
unfoldable pub count_result : Observability → Result ProveResponse ProveError → Observability
count_result m (ok response) = record m {
  proof_jobs_succeeded_total = fetch_add m.proof_jobs_succeeded_total 1;
}
count_result m (err (invalid_request message)) = record m {
  proof_jobs_invalid_total = fetch_add m.proof_jobs_invalid_total 1;
}
count_result m _ = record m { proof_jobs_failed_total = fetch_add m.proof_jobs_failed_total 1 }

-- `duration` is in nanoseconds; `as_millis() as u64` keeps the low 64 bits.
unfoldable pub record_proof_job_finished :
    Observability → Result ProveResponse ProveError → ℕ → Observability
unfolding count_result
record_proof_job_finished m result duration =
    let m₁ = record m {
      proof_jobs_completed_total = fetch_add m.proof_jobs_completed_total 1;
      proof_duration_millis_total =
          fetch_add m.proof_duration_millis_total (duration / 1_000_000 % u64_mod);
      proof_duration_millis_count = fetch_add m.proof_duration_millis_count 1;
    } in
    let m₂ = count_result m₁ result in
    record m₂ { proofs_in_flight = fetch_sub m₂.proofs_in_flight }

-- The single operations of `record_proof_job_started`, `record_proof_job_failed` and
-- `record_proof_job_finished`.
unfoldable pub count_started : Observability → Observability
count_started m = record m { proof_jobs_started_total = fetch_add m.proof_jobs_started_total 1 }

unfoldable pub gauge_up : Observability → Observability
gauge_up m = record m { proofs_in_flight = fetch_add m.proofs_in_flight 1 }

unfoldable pub gauge_down : Observability → Observability
gauge_down m = record m { proofs_in_flight = fetch_sub m.proofs_in_flight }

unfoldable pub count_completed : Observability → Observability
count_completed m = record m {
  proof_jobs_completed_total = fetch_add m.proof_jobs_completed_total 1;
}

unfoldable pub count_failed : Observability → Observability
count_failed m = record m { proof_jobs_failed_total = fetch_add m.proof_jobs_failed_total 1 }

unfoldable pub add_duration : ℕ → Observability → Observability
add_duration duration m = record m {
  proof_duration_millis_total =
      fetch_add m.proof_duration_millis_total (duration / 1_000_000 % u64_mod);
}

unfoldable pub count_duration : Observability → Observability
count_duration m = record m {
  proof_duration_millis_count = fetch_add m.proof_duration_millis_count 1;
}
