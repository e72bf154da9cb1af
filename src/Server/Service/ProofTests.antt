-- ===== src/Server/Service/ProofTests.antt =====
-- A client of server/src/main.rs receives the sample proof.
use agenc_prover.Base.{◌≡◌, sym, ap, ◌∙◌, [], ◌∷◌, none, text, Result, ok}
use agenc_prover.Guest.Samples.{sample_crates, sample_laws}
use agenc_prover.Prover.Generate
use agenc_prover.Prover.Generate.{production, ProveResponse, ProveError, generate_proof}
use agenc_prover.GuestProgram.Samples.{sample_zkvm, sample_request, sample_request-IsRequest}
use agenc_prover.GuestProgram.Tests.{sample_response, sample_response_given}
use agenc_prover.Server.Auth.{disabled, authorize}
use agenc_prover.Server.Metrics.{next_request_id, record_request_received}
use agenc_prover.Server.RateLimit.{local_dev_bucket, check, check_window, roll_window}
use agenc_prover.Server.Request.Fields.{raw_of, raw_of-IsRaw, try_into_fixed-raw_of}
use agenc_prover.Server.Runtime.{
  AppState, success, metrics, convert, spawn, arrive, authorized, limit,
}
use agenc_prover.Server.Service.{
  take_job, respond, Event, arrives, returns, joins, step, run, start,
}
use agenc_prover.Server.Service.Jobs.{some_inj}
use agenc_prover.Server.Service.Origin.{IsHonestRun}
use agenc_prover.Server.Service.Proofs.{IsProof, joins-IsProof}
use agenc_prover.Server.Tests.{one_slot}

abbrev prover : Generate.ProveRequest → Result ProveResponse ProveError
prover = generate_proof sample_crates (production sample_zkvm) (λ _. none)

abbrev fresh : AppState
fresh = start disabled one_slot 0 0

abbrev sample_arrival : Event
sample_arrival = arrives none (raw_of sample_request) 10 10

abbrev sample_return : Event
sample_return = returns 1 (ok sample_response) 5

-- The state in which the request is converted.
abbrev admitted_state : AppState
admitted_state = record fresh {
  prove_runtime = record fresh.prove_runtime {
    rate_limiter = (check fresh.prove_runtime.rate_limiter local_dev_bucket 10 10).0;
    observability = record_request_received ((next_request_id (metrics fresh)).0);
  };
}

sample_arrived : step sample_arrival fresh ≡ spawn admitted_state 1 sample_request
unfolding step start arrive authorized authorize limit convert check check_window roll_window
    next_request_id record_request_received
sample_arrived =
    ap (convert admitted_state 1) (try_into_fixed-raw_of sample_request sample_request-IsRequest)

sample_honest : IsHonestRun prover fresh (sample_arrival ∷ sample_return ∷ []) fresh
unfolding take_job spawn start check next_request_id record_request_received generate_proof
sample_honest = (
  tt,
  (
    λ j others e.
        (let taken = sym (ap (λ x. take_job 1 x.0.jobs) sample_arrived) ∙ e in
          sym sample_response_given ∙ ap (λ y. prover (y.0.fixed)) (some_inj taken)),
    tt,
  ),
)

sample_delivered :
    (step (joins 1 (text "panic")) (run (sample_arrival ∷ sample_return ∷ []) fresh)).1
    ≡ success sample_response
unfolding run step take_job spawn start check next_request_id record_request_received respond
sample_delivered =
    ap (λ x. (step (joins 1 (text "panic")) ((step sample_return (x.0)).0)).1) sample_arrived

joins-IsProof_example :
    IsProof sample_crates sample_laws
      (production sample_zkvm)
      fresh
      (sample_arrival ∷ sample_return ∷ [])
      1
      sample_response
joins-IsProof_example =
    joins-IsProof sample_crates sample_laws (production sample_zkvm) (λ _. none) disabled one_slot 0
      0 (sample_arrival ∷ sample_return ∷ []) 1 (text "panic") sample_response
      (raw_of-IsRaw sample_request sample_request-IsRequest, (tt, tt)) sample_honest
      sample_delivered
