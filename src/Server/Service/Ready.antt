-- ===== src/Server/Service/Ready.antt =====
-- What the probes of server/src/main.rs tell about the service in a reachable state.
use agenc_prover.Base.{ℕ, ◌+◌, ◌≡◌, ◌↔◌, arith, List, true}
use agenc_prover.Prover.Generate
use agenc_prover.Server.Auth.{ProveAuth}
use agenc_prover.Server.Exposition.{readyz, available_slots_of}
use agenc_prover.Server.Runtime.{ExecutionPolicy, pending, spawn}
use agenc_prover.Server.Service.{Event, run, start}
use agenc_prover.Server.Service.Invariant.{running_count}
use agenc_prover.Server.Service.Capacity.{service_accounts, run-max}

-- In every state that the service can reach, `/readyz` answers 200 exactly when a converted request
-- would be given to a new job, and 503 exactly when as many jobs run as the policy allows; its body
-- shows the policy's limit, and free slots that the running jobs fill up to that limit.
pub readyz_iff :
    (auth : ProveAuth) (policy : ExecutionPolicy) (now now' : ℕ) (es : List Event) (id : ℕ)
    (fixed : Generate.ProveRequest)
    → let s = run es (start auth policy now now') in
      let (status, body) = readyz s in
      ((status ≡ 200) ↔ ((spawn s id fixed).1 ≡ pending))
      × ((status ≡ 503) ↔ (running_count s.jobs ≡ policy.max_in_flight))
      × ((body.ready ≡ true) ↔ (status ≡ 200))
      × (body.max_in_flight ≡ policy.max_in_flight)
      × (body.available_slots + running_count s.jobs ≡ body.max_in_flight)
unfolding readyz available_slots_of spawn
readyz_iff auth policy now now' es id fixed =
    let h = (service_accounts auth policy now now' es).permits in
    let m = run-max auth policy now now' es in (ground arith, ground arith, ground arith, m, h)
