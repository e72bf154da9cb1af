-- ===== src/Server/Threads/Sound.antt =====
-- server/src/main.rs: permits and counters under every interleaving of requests.
use agenc_prover.Base.{
  ℕ, ◌≤◌, List, [], ◌∷◌, Option, none, some, get_elem?, ◌≡◌, ◌∙◌, refl, sym, arith,
}
use mathlib.Core.Path.{subst}
use agenc_prover.Server.Auth.{ProveAuth}
use agenc_prover.Server.Runtime.{ExecutionPolicy, ProveRuntime, new_runtime}
use agenc_prover.Server.Threads.{entered, Pc, handling, Turn}
use agenc_prover.Server.Threads.Load.{
  pc_load, handler_load, load, others, load-others, load-set, add-nothing, load-append, proving_le,
}
use agenc_prover.Server.Threads.Counters.{new-Agrees}
use agenc_prover.Server.Threads.Kept.{IsKept, KeptAfter}
use agenc_prover.Server.Threads.Kept.Working.{After, turn-IsKept}
use agenc_prover.Server.Threads.System.{
  System, Event, arrives, moves, moved, move, step, run, start,
}

-- One event, whoever takes the turn.
moved-IsKept :
    (permits : ℕ) (s : System) (i : ℕ) (p : Pc) (x : Option (ProveRuntime × Pc))
    → get_elem? s.requests i ≡ some p
    → After permits (load (others s.requests i)) x
    → IsKept permits s.runtime (load s.requests)
    → IsKept permits (moved s i x).runtime (load (moved s i x).requests)
unfolding moved After KeptAfter
moved-IsKept permits s i p none e k h = h
moved-IsKept permits s i p (some (r, q)) e k h =
    subst (IsKept permits r) (sym (load-set s.requests i p q e)) k

move-IsKept :
    (permits : ℕ) (s : System) (i : ℕ) (turn : Turn) (x : Option Pc)
    → get_elem? s.requests i ≡ x
    → IsKept permits s.runtime (load s.requests)
    → IsKept permits (move s i turn x).runtime (load (move s i turn x).requests)
unfolding move
move-IsKept permits s i turn none e h = h
move-IsKept permits s i turn (some p) e h =
    moved-IsKept permits s i p _ e
      (turn-IsKept permits (load (others s.requests i)) s.auth s.runtime p turn
        (subst (IsKept permits s.runtime) (load-others s.requests i p e) h))
      h

step-IsKept :
    (permits : ℕ) (e : Event) (s : System)
    → IsKept permits s.runtime (load s.requests)
    → IsKept permits (step e s).runtime (load (step e s).requests)
unfolding step pc_load handler_load
step-IsKept permits (arrives header request) s h =
    subst (IsKept permits s.runtime)
      (sym (
        load-append s.requests (handling (entered header request)) ∙ add-nothing (load s.requests)))
      h
step-IsKept permits (moves i turn) s h = move-IsKept permits s i turn _ refl h

run_from-IsKept :
    (permits : ℕ) (es : List Event) (s : System)
    → IsKept permits s.runtime (load s.requests)
    → IsKept permits (run es s).runtime (load (run es s).requests)
unfolding run
run_from-IsKept permits [] s h = h
run_from-IsKept permits (e ∷ es) s h =
    run_from-IsKept permits es (step e s) (step-IsKept permits e s h)

-- A system whose runtime was made for that policy: its permits and counters, and the provers at work.
pub record IsSound (policy : ExecutionPolicy) (s : System) : Type 0 where
  pub kept : IsKept policy.max_in_flight s.runtime (load s.requests)
  pub provers : (load s.requests).proving ≤ policy.max_in_flight

-- After any requests and any turns of their tasks in any order, one shared operation at a time: the
-- free permits and those held by requests and tasks add up to `max_in_flight`, no more provers work
-- at once, and modulo 2^64 the counters agree up to the operations under way: every number is a
-- received request or one about to be counted, every received request has one outcome or is not
-- decided yet, every started job is completed or unfinished, every completed one has its result
-- counted or not yet, and the gauge shows the jobs that raised it and have not lowered it.
pub run-IsSound :
    (auth : ProveAuth) (policy : ExecutionPolicy) (now now' : ℕ) (es : List Event)
    → IsSound policy (run es (start auth policy now now'))
unfolding start new_runtime load
run-IsSound auth policy now now' es =
    let kept =
      run_from-IsKept policy.max_in_flight es (start auth policy now now')
        record { limit = refl; split = omega arith; agrees = new-Agrees } in
    let h = proving_le (run es (start auth policy now now')).requests in
    let split = kept.split in record { kept = kept; provers = omega arith }
