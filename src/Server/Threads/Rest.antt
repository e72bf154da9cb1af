-- ===== src/Server/Threads/Rest.antt =====
-- server/src/main.rs: the service when no request can go on, and a way to get there.
use agenc_prover.Base.{ℕ, suc, ◌+◌, ◌%◌, All, List, [], ◌∷◌, some, get_elem?, ◌≡◌, refl, arith}
use agenc_prover.Server.Auth.{ProveAuth}
use agenc_prover.Server.Metrics.{u64_mod}
use agenc_prover.Server.Runtime.{ExecutionPolicy, Answer}
use agenc_prover.Server.Threads.{
  take_turn, Pc, handling, awaited, alone, delivered, crashed, join_counted, join_classified,
  settled, lost, Turn, goes, works, panics,
}
use agenc_prover.Server.Threads.Load.{load, pc_load}
use agenc_prover.Server.Threads.Rank.{turn_count}
use agenc_prover.Server.Threads.Sound.{IsSound, run-IsSound}
use agenc_prover.Server.Threads.System.{System, Event, run, start}

-- A turn that a request can take while it is under way.
unfoldable pub next_turn : Pc → Turn
next_turn (awaited task) = works (panics [])
next_turn (alone a task) = works (panics [])
next_turn p = goes 0 0

pub data IsOver : Pc → Type 0 where
  has_settled : {a : Answer} → IsOver (settled a)
  is_lost : {a : Answer} → IsOver (lost a)

next_turn-count : (s : System) (p : Pc) → turn_count s (next_turn p) (some p) ≡ 0 → IsOver p
unfolding turn_count take_turn next_turn
next_turn-count s (handling h) e = absurd (ground arith)
next_turn-count s (awaited task) e = absurd (ground arith)
next_turn-count s (alone a task) e = absurd (ground arith)
next_turn-count s (delivered result) e = absurd (ground arith)
next_turn-count s (crashed join_error) e = absurd (ground arith)
next_turn-count s (join_counted x) e = absurd (ground arith)
next_turn-count s (join_classified x) e = absurd (ground arith)
next_turn-count s (settled a) e = has_settled
next_turn-count s (lost a) e = is_lost

-- No request can take a turn.
unfoldable pub IsStuck : System → Type 0
IsStuck s = (i : ℕ) (turn : Turn) → turn_count s turn (get_elem? s.requests i) ≡ 0

-- The requests that a panic has ended and whose client was gone.
unfoldable pub lost_count : List Pc → ℕ
lost_count [] = 0
lost_count (lost a ∷ ps) = 1 + lost_count ps
lost_count (p ∷ ps) = lost_count ps

at_rest :
    (s : System) (ps : List Pc)
    → ((i : ℕ) (turn : Turn) → turn_count s turn (get_elem? ps i) ≡ 0)
    → All IsOver ps
at_rest s [] h = tt
at_rest s (p ∷ ps) h = (next_turn-count s p (h 0 (next_turn p)), at_rest s ps (λ i. h (suc i)))

-- What ended requests count for.
record IsQuiet (ps : List Pc) : Type 0 where
  held : (load ps).held ≡ 0
  gauged : (load ps).gauged ≡ lost_count ps
  unfinished : (load ps).unfinished ≡ lost_count ps
  undecided : (load ps).undecided ≡ 0

over-IsQuiet : (p : Pc) (ps : List Pc) → IsOver p → IsQuiet ps → IsQuiet (p ∷ ps)
unfolding load pc_load lost_count
over-IsQuiet _ ps has_settled h = record {
  held = (let e = h.held in omega arith);
  gauged = (let e = h.gauged in omega arith);
  unfinished = (let e = h.unfinished in omega arith);
  undecided = (let e = h.undecided in omega arith);
}
over-IsQuiet _ ps is_lost h = record {
  held = (let e = h.held in omega arith);
  gauged = (let e = h.gauged in omega arith);
  unfinished = (let e = h.unfinished in omega arith);
  undecided = (let e = h.undecided in omega arith);
}

requests-IsQuiet : (ps : List Pc) → All IsOver ps → IsQuiet ps
unfolding load lost_count
requests-IsQuiet [] h = record { held = refl; gauged = refl; unfinished = refl; undecided = refl }
requests-IsQuiet (p ∷ ps) h = over-IsQuiet p ps (h.0) (requests-IsQuiet ps (h.1))

-- The service at rest: every client has its answer or is gone, every permit is free, every request
-- is in one counter, and the gauge and the counters of jobs are apart by the lost ones.
pub record IsAtRest (policy : ExecutionPolicy) (s : System) : Type 0 where
  pub over : All IsOver s.requests
  pub permits : s.runtime.available ≡ policy.max_in_flight
  pub gauge : s.runtime.observability.proofs_in_flight ≡ lost_count s.requests % u64_mod
  pub jobs :
      (s.runtime.observability.proof_jobs_completed_total + lost_count s.requests) % u64_mod
      ≡ s.runtime.observability.proof_jobs_started_total
  pub requests :
      (s.runtime.observability.prove_unauthorized_total
          + s.runtime.observability.prove_rate_limited_total
          + s.runtime.observability.prove_bad_request_total
          + s.runtime.observability.prove_overloaded_total
          + s.runtime.observability.proof_jobs_started_total)
        % u64_mod
      ≡ s.runtime.observability.prove_requests_total

pub over-IsAtRest :
    (policy : ExecutionPolicy) (s : System)
    → IsSound policy s
    → All IsOver s.requests
    → IsAtRest policy s
over-IsAtRest policy s sound over =
    let quiet = requests-IsQuiet s.requests over in
    let agrees = sound.kept.agrees in
    let held = quiet.held in
    let gauged = quiet.gauged in
    let unfinished = quiet.unfinished in
    let undecided = quiet.undecided in
    record {
      over = over;
      permits = (let h = sound.kept.split in omega arith);
      gauge = (let h = agrees.gauge in omega arith);
      jobs = (let h = agrees.jobs in omega arith);
      requests = (let h = agrees.requests in omega arith);
    }

-- When no request can take a turn after any schedule, every client has its answer or is gone, every
-- permit is free, every request is in one counter, and the gauge shows just the panics that nobody
-- waited for, which the counter of completed jobs leaves out.
pub stuck-IsAtRest :
    (auth : ProveAuth) (policy : ExecutionPolicy) (now now' : ℕ) (es : List Event)
    → IsStuck (run es (start auth policy now now'))
    → IsAtRest policy (run es (start auth policy now now'))
unfolding IsStuck
stuck-IsAtRest auth policy now now' es h =
    let s = run es (start auth policy now now') in
    over-IsAtRest policy s (run-IsSound auth policy now now' es) (at_rest s s.requests h)
