-- ===== src/Server/Threads/Counters.antt =====
-- The single operations on the counters of server/src/main.rs, against the load they are under.
use agenc_prover.Base.{ℕ, ◌+◌, ◌%◌, Result, ok, err, panic, ◌≡◌, arith, refl}
use agenc_prover.Prover.Generate.{
  ProveResponse, ProveError, invalid_request, unexpected_journal_length, untrusted_image_id,
  dev_mode_enabled, prover_failed, receipt_type_mismatch,
}
use agenc_prover.Server.Metrics.{
  Observability, u64_mod, new_observability, next_request_id, record_request_received,
  record_unauthorized, record_bad_request, record_rate_limited, record_overloaded, record_timeout,
  count_result, count_started, gauge_up, gauge_down, count_completed, count_failed, add_duration,
  count_duration,
}

-- The sums that the counters keep, modulo 2^64, with that many requests numbered only, not decided,
-- jobs open, jobs without a result's counter, and jobs in the gauge.
pub record Agrees (m : Observability) (n u b c g : ℕ) : Type 0 where
  pub numbered : (m.prove_requests_total + n) % u64_mod ≡ m.request_sequence
  pub requests :
      (m.prove_unauthorized_total + m.prove_rate_limited_total + m.prove_bad_request_total
          + m.prove_overloaded_total + m.proof_jobs_started_total + u)
        % u64_mod
      ≡ m.prove_requests_total
  pub jobs : (m.proof_jobs_completed_total + b) % u64_mod ≡ m.proof_jobs_started_total
  pub results :
      (m.proof_jobs_succeeded_total + m.proof_jobs_invalid_total + m.proof_jobs_failed_total + c)
        % u64_mod
      ≡ m.proof_jobs_completed_total
  pub gauge : g % u64_mod ≡ m.proofs_in_flight

pub new-Agrees : Agrees new_observability 0 0 0 0 0
unfolding new_observability
new-Agrees = record { numbered = refl; requests = refl; jobs = refl; results = refl; gauge = refl }

module _ (m : Observability) (n u b c g : ℕ) where
  pub next-Agrees : Agrees m (0 + n) u b c g → Agrees ((next_request_id m).0) (1 + n) u b c g
  unfolding next_request_id
  next-Agrees h = record {
    numbered = (let e = h.numbered in omega arith);
    requests = h.requests;
    jobs = h.jobs;
    results = h.results;
    gauge = h.gauge;
  }

  pub received-Agrees :
      Agrees m (1 + n) (0 + u) b c g → Agrees (record_request_received m) (0 + n) (1 + u) b c g
  unfolding record_request_received
  received-Agrees h = record {
    numbered = (let e = h.numbered in omega arith);
    requests = (let e = h.requests in omega arith);
    jobs = h.jobs;
    results = h.results;
    gauge = h.gauge;
  }

  pub unauthorized-Agrees :
      Agrees m n (1 + u) b c g → Agrees (record_unauthorized m) n (0 + u) b c g
  unfolding record_unauthorized
  unauthorized-Agrees h = record {
    numbered = h.numbered;
    requests = (let e = h.requests in omega arith);
    jobs = h.jobs;
    results = h.results;
    gauge = h.gauge;
  }

  pub bad_request-Agrees : Agrees m n (1 + u) b c g → Agrees (record_bad_request m) n (0 + u) b c g
  unfolding record_bad_request
  bad_request-Agrees h = record {
    numbered = h.numbered;
    requests = (let e = h.requests in omega arith);
    jobs = h.jobs;
    results = h.results;
    gauge = h.gauge;
  }

  pub rate_limited-Agrees :
      Agrees m n (1 + u) b c g → Agrees (record_rate_limited m) n (0 + u) b c g
  unfolding record_rate_limited
  rate_limited-Agrees h = record {
    numbered = h.numbered;
    requests = (let e = h.requests in omega arith);
    jobs = h.jobs;
    results = h.results;
    gauge = h.gauge;
  }

  pub overloaded-Agrees : Agrees m n (1 + u) b c g → Agrees (record_overloaded m) n (0 + u) b c g
  unfolding record_overloaded
  overloaded-Agrees h = record {
    numbered = h.numbered;
    requests = (let e = h.requests in omega arith);
    jobs = h.jobs;
    results = h.results;
    gauge = h.gauge;
  }

  pub timeout-Agrees : Agrees m n u b c g → Agrees (record_timeout m) n u b c g
  unfolding record_timeout
  timeout-Agrees h = record {
    numbered = h.numbered;
    requests = h.requests;
    jobs = h.jobs;
    results = h.results;
    gauge = h.gauge;
  }

  pub started-Agrees :
      Agrees m n (1 + u) (0 + b) c g → Agrees (count_started m) n (0 + u) (1 + b) c g
  unfolding count_started
  started-Agrees h = record {
    numbered = h.numbered;
    requests = (let e = h.requests in omega arith);
    jobs = (let e = h.jobs in omega arith);
    results = h.results;
    gauge = h.gauge;
  }

  pub raised-Agrees : Agrees m n u b c (0 + g) → Agrees (gauge_up m) n u b c (1 + g)
  unfolding gauge_up
  raised-Agrees h = record {
    numbered = h.numbered;
    requests = h.requests;
    jobs = h.jobs;
    results = h.results;
    gauge = (let e = h.gauge in omega arith);
  }

  pub lowered-Agrees : Agrees m n u b c (1 + g) → Agrees (gauge_down m) n u b c (0 + g)
  unfolding gauge_down
  lowered-Agrees h = record {
    numbered = h.numbered;
    requests = h.requests;
    jobs = h.jobs;
    results = h.results;
    gauge = (let e = h.gauge in omega arith);
  }

  pub completed-Agrees :
      Agrees m n u (1 + b) (0 + c) g → Agrees (count_completed m) n u (0 + b) (1 + c) g
  unfolding count_completed
  completed-Agrees h = record {
    numbered = h.numbered;
    requests = h.requests;
    jobs = (let e = h.jobs in omega arith);
    results = (let e = h.results in omega arith);
    gauge = h.gauge;
  }

  pub failed-Agrees : Agrees m n u b (1 + c) g → Agrees (count_failed m) n u b (0 + c) g
  unfolding count_failed
  failed-Agrees h = record {
    numbered = h.numbered;
    requests = h.requests;
    jobs = h.jobs;
    results = (let e = h.results in omega arith);
    gauge = h.gauge;
  }

  pub measured-Agrees :
      (duration : ℕ) → Agrees m n u b c g → Agrees (add_duration duration m) n u b c g
  unfolding add_duration
  measured-Agrees duration h = record {
    numbered = h.numbered;
    requests = h.requests;
    jobs = h.jobs;
    results = h.results;
    gauge = h.gauge;
  }

  pub timed-Agrees : Agrees m n u b c g → Agrees (count_duration m) n u b c g
  unfolding count_duration
  timed-Agrees h = record {
    numbered = h.numbered;
    requests = h.requests;
    jobs = h.jobs;
    results = h.results;
    gauge = h.gauge;
  }

  -- Whichever counter a result goes to.
  classified :
      (succeeded invalid failed : ℕ)
      → Agrees m n u b (1 + c) g
      → (succeeded + invalid + failed + (0 + c)) % u64_mod ≡ m.proof_jobs_completed_total
      → Agrees
          (record m {
            proof_jobs_succeeded_total = succeeded;
            proof_jobs_invalid_total = invalid;
            proof_jobs_failed_total = failed;
          })
          n
          u
          b
          (0 + c)
          g
  classified succeeded invalid failed h e = record {
    numbered = h.numbered;
    requests = h.requests;
    jobs = h.jobs;
    results = e;
    gauge = h.gauge;
  }

  pub classified-Agrees :
      (result : Result ProveResponse ProveError)
      → Agrees m n u b (1 + c) g
      → Agrees (count_result m result) n u b (0 + c) g
  unfolding count_result
  classified-Agrees (ok response) h = classified _ _ _ h (let e = h.results in omega arith)
  classified-Agrees (err (invalid_request message)) h =
      classified _ _ _ h (let e = h.results in omega arith)
  classified-Agrees (err (unexpected_journal_length k l)) h =
      classified _ _ _ h (let e = h.results in omega arith)
  classified-Agrees (err (untrusted_image_id k l)) h =
      classified _ _ _ h (let e = h.results in omega arith)
  classified-Agrees (err (dev_mode_enabled message)) h =
      classified _ _ _ h (let e = h.results in omega arith)
  classified-Agrees (err (prover_failed message)) h =
      classified _ _ _ h (let e = h.results in omega arith)
  classified-Agrees (err (receipt_type_mismatch message)) h =
      classified _ _ _ h (let e = h.results in omega arith)
  classified-Agrees panic h = classified _ _ _ h (let e = h.results in omega arith)
