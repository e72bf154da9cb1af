-- ===== src/Server/Service/Accounts.antt =====
-- server/src/main.rs: the counters of `Observability` against the permits and the jobs.
use agenc_prover.Base.{ℕ, ◌+◌, ◌%◌, Result, ok, err, panic, ◌≡◌, ap, arith, refl}
use agenc_prover.Prover.Generate.{
  ProveResponse, ProveError, invalid_request, unexpected_journal_length, untrusted_image_id,
  dev_mode_enabled, prover_failed, receipt_type_mismatch,
}
use agenc_prover.Server.Metrics.{
  Observability, u64_mod, fetch_add, fetch_sub, new_observability, next_request_id,
  record_request_received, record_unauthorized, record_bad_request, record_rate_limited,
  record_overloaded, record_timeout, record_proof_job_started, record_proof_job_failed,
  record_proof_job_finished, count_result,
}

-- The sums that the counters keep, modulo 2^64, with that many jobs running, jobs ended by a panic
-- that is not counted yet, and requests received but not decided.
pub record Agree (m : Observability) (running crashed undecided : ℕ) : Type 0 where
  pub numbered : m.prove_requests_total ≡ m.request_sequence
  pub requests :
      (m.prove_unauthorized_total + m.prove_rate_limited_total + m.prove_bad_request_total
          + m.prove_overloaded_total + m.proof_jobs_started_total + undecided)
        % u64_mod
      ≡ m.prove_requests_total
  pub jobs :
      (m.proof_jobs_completed_total + running + crashed) % u64_mod ≡ m.proof_jobs_started_total
  pub results :
      (m.proof_jobs_succeeded_total + m.proof_jobs_invalid_total + m.proof_jobs_failed_total)
        % u64_mod
      ≡ m.proof_jobs_completed_total
  pub gauge : (running + crashed) % u64_mod ≡ m.proofs_in_flight

pub new-Agree : Agree new_observability 0 0 0
unfolding new_observability
new-Agree = record { numbered = refl; requests = refl; jobs = refl; results = refl; gauge = refl }

pub received-Agree :
    (m : Observability) (a b : ℕ)
    → Agree m a b 0
    → Agree (record_request_received ((next_request_id m).0)) a b 1
unfolding next_request_id record_request_received
received-Agree m a b h = record {
  numbered = ap (λ n. (n + 1) % u64_mod) h.numbered;
  requests = (let e = h.requests in omega arith);
  jobs = h.jobs;
  results = h.results;
  gauge = h.gauge;
}

pub unauthorized-Agree :
    (m : Observability) (a b : ℕ) → Agree m a b 1 → Agree (record_unauthorized m) a b 0
unfolding record_unauthorized
unauthorized-Agree m a b h = record {
  numbered = h.numbered;
  requests = (let e = h.requests in omega arith);
  jobs = h.jobs;
  results = h.results;
  gauge = h.gauge;
}

pub bad_request-Agree :
    (m : Observability) (a b : ℕ) → Agree m a b 1 → Agree (record_bad_request m) a b 0
unfolding record_bad_request
bad_request-Agree m a b h = record {
  numbered = h.numbered;
  requests = (let e = h.requests in omega arith);
  jobs = h.jobs;
  results = h.results;
  gauge = h.gauge;
}

pub rate_limited-Agree :
    (m : Observability) (a b : ℕ) → Agree m a b 1 → Agree (record_rate_limited m) a b 0
unfolding record_rate_limited
rate_limited-Agree m a b h = record {
  numbered = h.numbered;
  requests = (let e = h.requests in omega arith);
  jobs = h.jobs;
  results = h.results;
  gauge = h.gauge;
}

pub overloaded-Agree :
    (m : Observability) (a b : ℕ) → Agree m a b 1 → Agree (record_overloaded m) a b 0
unfolding record_overloaded
overloaded-Agree m a b h = record {
  numbered = h.numbered;
  requests = (let e = h.requests in omega arith);
  jobs = h.jobs;
  results = h.results;
  gauge = h.gauge;
}

pub timeout-Agree : (m : Observability) (a b : ℕ) → Agree m a b 0 → Agree (record_timeout m) a b 0
unfolding record_timeout
timeout-Agree m a b h = record {
  numbered = h.numbered;
  requests = h.requests;
  jobs = h.jobs;
  results = h.results;
  gauge = h.gauge;
}

pub started-Agree :
    (m : Observability) (a b : ℕ) → Agree m a b 1 → Agree (record_proof_job_started m) (1 + a) b 0
unfolding record_proof_job_started
started-Agree m a b h = record {
  numbered = h.numbered;
  requests = (let e = h.requests in omega arith);
  jobs = (let e = h.jobs in omega arith);
  results = h.results;
  gauge = (let e = h.gauge in omega arith);
}

pub failed-Agree :
    (m : Observability) (a b : ℕ) → Agree m a (1 + b) 0 → Agree (record_proof_job_failed m) a b 0
unfolding record_proof_job_failed
failed-Agree m a b h = record {
  numbered = h.numbered;
  requests = h.requests;
  jobs = (let e = h.jobs in omega arith);
  results = (let e = h.results in omega arith);
  gauge = (let e = h.gauge in omega arith);
}

-- A finished job, whichever counter its result goes to.
settled :
    (m : Observability) (succeeded invalid failed millis count a b : ℕ)
    → Agree m (1 + a) b 0
    → (succeeded + invalid + failed) % u64_mod ≡ (m.proof_jobs_completed_total + 1) % u64_mod
    → Agree
        (record m {
          proof_jobs_completed_total = fetch_add m.proof_jobs_completed_total 1;
          proof_jobs_succeeded_total = succeeded;
          proof_jobs_invalid_total = invalid;
          proof_jobs_failed_total = failed;
          proof_duration_millis_total = millis;
          proof_duration_millis_count = count;
          proofs_in_flight = fetch_sub m.proofs_in_flight;
        })
        a
        b
        0
settled m succeeded invalid failed millis count a b h e = record {
  numbered = h.numbered;
  requests = h.requests;
  jobs = (let e' = h.jobs in omega arith);
  results = e;
  gauge = (let e' = h.gauge in omega arith);
}

pub finished-Agree :
    (m : Observability) (result : Result ProveResponse ProveError) (duration a b : ℕ)
    → Agree m (1 + a) b 0
    → Agree (record_proof_job_finished m result duration) a b 0
unfolding record_proof_job_finished count_result
finished-Agree m (ok response) d a b h =
    settled m _ _ _ _ _ a b h (let e = h.results in omega arith)
finished-Agree m (err (invalid_request message)) d a b h =
    settled m _ _ _ _ _ a b h (let e = h.results in omega arith)
finished-Agree m (err (unexpected_journal_length n k)) d a b h =
    settled m _ _ _ _ _ a b h (let e = h.results in omega arith)
finished-Agree m (err (untrusted_image_id n k)) d a b h =
    settled m _ _ _ _ _ a b h (let e = h.results in omega arith)
finished-Agree m (err (dev_mode_enabled message)) d a b h =
    settled m _ _ _ _ _ a b h (let e = h.results in omega arith)
finished-Agree m (err (prover_failed message)) d a b h =
    settled m _ _ _ _ _ a b h (let e = h.results in omega arith)
finished-Agree m (err (receipt_type_mismatch message)) d a b h =
    settled m _ _ _ _ _ a b h (let e = h.results in omega arith)
finished-Agree m panic d a b h = settled m _ _ _ _ _ a b h (let e = h.results in omega arith)

-- A running job may count as a crashed one.
pub crashed-Agree : (m : Observability) (a b u : ℕ) → Agree m (1 + a) b u → Agree m a (1 + b) u
crashed-Agree m a b u h = record {
  numbered = h.numbered;
  requests = h.requests;
  jobs = (let e = h.jobs in omega arith);
  results = h.results;
  gauge = (let e = h.gauge in omega arith);
}
