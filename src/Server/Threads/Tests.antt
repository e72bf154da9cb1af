-- ===== src/Server/Threads/Tests.antt =====
-- Requests to `/prove` of server/src/main.rs in sample interleavings.
use agenc_prover.Base.{
  ℕ, zero, suc, ◌+◌, ◌*◌, ◌≤◌, ◌≡◌, refl, ap, ◌∙◌, length, List, [], ◌∷◌, ◌++◌, none, some, Result,
  err, replicate, get_elem?,
}
use agenc_prover.Prover.Generate
use agenc_prover.Server.Auth.{disabled, authorize}
use agenc_prover.Server.Metrics.{next_request_id, record_request_received}
use agenc_prover.Server.RateLimit.{check, check_window, roll_window, new_limiter, new_window}
use agenc_prover.Server.Request.{try_into_fixed, try_into_fixed_output, vec_to_field}
use agenc_prover.Server.Runtime.{AppState, metrics, Answer, failure, new_runtime, saturated}
use agenc_prover.Server.Service.{timed_out}
use agenc_prover.Server.Tests.{one_slot, full_salt}
use agenc_prover.Server.Threads.{
  handling, entered, settled, Pc, Turn, goes, works, returns, expires, disconnects, handle, judge,
  rule, accept, acquire, take_turn, work,
}
use agenc_prover.Server.Threads.Drain.{drain, run-drain-IsAtRest}
use agenc_prover.Server.Service
use agenc_prover.Server.Service.Order.{Arrived}
use agenc_prover.Server.Threads.Effects.{CountedFor, uninterrupted_effects}
use agenc_prover.Server.Threads.Whole.{uninterrupted, outcome}
use agenc_prover.Server.Threads.Refused.{CountsRefusals, refusals, run-CountsRefusals}
use agenc_prover.Server.Threads.Tally.{given, status_of, one_if}
use agenc_prover.Server.Errors.{timeout, overloaded}
use agenc_prover.Server.Threads.Rank.{rank, arrivals, turn_count}
use agenc_prover.Server.Threads.Rest.{IsStuck, IsAtRest, stuck-IsAtRest}
use agenc_prover.Server.Threads.Sound.{IsSound, run-IsSound}
use agenc_prover.Server.Threads.System.{
  System, Event, arrives, moves, moved, move, step, run, start,
}

abbrev initial : System
initial = start disabled one_slot 0 0

abbrev several : ℕ → ℕ → Turn → List Event
several i n turn = replicate n (moves i turn)

abbrev failed : Result Generate.ProveResponse Generate.ProveError
failed = err (Generate.prover_failed [])

-- Two requests at once: the second finds no permit while the first is between its two counters; the
-- first has its time over, and its job ends in a failure.
abbrev two_at_once : List Event
two_at_once =
    arrives none full_salt ∷ arrives none full_salt ∷ several 0 6 (goes 10 10)
    ++ (several 1 6 (goes 20 20)
        ++ (moves 0 (goes 30 30) ∷ several 0 3 (works (returns failed 5))
            ++ (moves 0 expires ∷ several 0 5 (works (returns failed 5)))))

run-IsSound_example : IsSound one_slot (run two_at_once initial)
run-IsSound_example = run-IsSound disabled one_slot 0 0 two_at_once

run-CountsRefusals_example :
    CountsRefusals
      (run two_at_once initial).runtime.observability
      (run two_at_once initial).requests
run-CountsRefusals_example = run-CountsRefusals disabled one_slot 0 0 two_at_once

run-drain-IsAtRest_example :
    (let s = run two_at_once initial in
      let turns_left = drain (rank s.requests) s in
      (length turns_left ≤ 15 * arrivals two_at_once) × IsAtRest one_slot (run turns_left s))
run-drain-IsAtRest_example = run-drain-IsAtRest disabled one_slot 0 0 two_at_once

-- Both requests are over.
abbrev both_over : List Pc
both_over =
    settled (failure (timed_out initial.runtime))
    ∷ settled (failure (saturated initial.runtime))
    ∷ []

two_over : (run two_at_once initial).requests ≡ both_over
unfolding run step move moved take_turn handle judge rule accept acquire work start new_runtime
    authorize check check_window roll_window new_limiter new_window try_into_fixed
    try_into_fixed_output vec_to_field next_request_id record_request_received timed_out saturated
two_over = refl

-- One of them was too late, and one found no permit.
two_refusals : refusals 504 both_over + refusals 503 both_over ≡ 2
unfolding refusals given status_of one_if timed_out timeout saturated overloaded
two_refusals = refl

settled_stays : (s : System) (a : Answer) (turn : Turn) → turn_count s turn (some (settled a)) ≡ 0
unfolding turn_count take_turn
settled_stays s a (goes now later) = refl
settled_stays s a (works end) = refl
settled_stays s a expires = refl
settled_stays s a disconnects = refl

both_stay : (s : System) (i : ℕ) (turn : Turn) → turn_count s turn (get_elem? both_over i) ≡ 0
unfolding turn_count
both_stay s zero turn = settled_stays s _ turn
both_stay s (suc zero) turn = settled_stays s _ turn
both_stay s (suc (suc i)) turn = refl

two-IsStuck : IsStuck (run two_at_once initial)
unfolding IsStuck
two-IsStuck = λ i turn.
    ap (λ ps. turn_count (run two_at_once initial) turn (get_elem? ps i)) two_over
    ∙ both_stay (run two_at_once initial) i turn

stuck-IsAtRest_example : IsAtRest one_slot (run two_at_once initial)
stuck-IsAtRest_example = stuck-IsAtRest disabled one_slot 0 0 two_at_once two-IsStuck

abbrev idle : AppState
idle = Service.start disabled one_slot 0 0

uninterrupted_effects_example :
    (let end = outcome idle (
        uninterrupted 15 idle.prove_auth
          (goes 10 10)
          (idle.prove_runtime, handling (entered none full_salt))) in
      let (m, id) = next_request_id (metrics idle) in
      Arrived idle id none full_salt 10 10 end × CountedFor (record_request_received m) end)
uninterrupted_effects_example = uninterrupted_effects idle none full_salt 10 10
