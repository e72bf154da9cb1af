-- ===== src/Server/Threads/Kept.antt =====
-- The permits and the counters of server/src/main.rs under a load.
pub mod Handling
pub mod Working
use agenc_prover.Base.{
  ℕ, ◌+◌, ◌-◌, ◌≤◌, ◌%◌, Bool, true, false, List, [], ◌∷◌, Option, none, some, Text, Result, ok,
  err, panic, leb, get_elem?, ◌≡◌, ◌≢◌, ◌∙◌, refl, sym, ap, arith, if◌then◌else◌,
}
use mathlib.Core.Path.{subst}
use agenc_prover.Prover.Generate
use agenc_prover.Prover.Generate.{ProveResponse, ProveError}
use agenc_prover.Server.Errors.{AppError}
use agenc_prover.Server.Request.{ProveRequest, try_into_fixed}
use agenc_prover.Server.Request.Widths.{try_into_fixed-no_panic}
use agenc_prover.Server.Auth.{ProveAuth, authorize}
use agenc_prover.Server.RateLimit.{RateLimiter, RateLimitBucket, check}
use agenc_prover.Server.Runtime.{ExecutionPolicy, ProveRuntime, new_runtime, saturated, Answer}
use agenc_prover.Server.Service.Arrival.{authorize-no_panic, check-no_panic}
use agenc_prover.Server.Threads.{
  rule, judge, acquire, accept, handle, work, take_turn, Handler, entered, numbered, received,
  limited, admitted, turned_away, permitted, started, counted, Task, working, ended, completed,
  measured, timed, classified, finished, unwinding, Pc, handling, awaited, alone, delivered,
  crashed, join_counted, join_classified, settled, lost, Turn, goes, works, Outcome, returns,
  panics, after_work, expires, disconnects, Progress, still, left, gone, awaited_after, alone_after,
}
use agenc_prover.Server.Threads.Load.{
  Load, nothing, arrived, open_job, add, pc_load, task_load, handler_load, load, others,
  load-others, load-set, add-nothing, load-append, proving_le,
}
use agenc_prover.Server.Threads.Counters.{
  Agrees, new-Agrees, next-Agrees, received-Agrees, unauthorized-Agrees, bad_request-Agrees,
  rate_limited-Agrees, overloaded-Agrees, timeout-Agrees, started-Agrees, raised-Agrees,
  lowered-Agrees, completed-Agrees, failed-Agrees, measured-Agrees, timed-Agrees, classified-Agrees,
}

-- The permits and the counters of a runtime with that many permits in all, under a load.
pub record IsKept (permits : ℕ) (r : ProveRuntime) (l : Load) : Type 0 where
  pub limit : r.max_in_flight ≡ permits
  pub split : r.available + l.held ≡ permits
  pub agrees : Agrees r.observability l.uncounted l.undecided l.unfinished l.unclassified l.gauged

-- The same after one request's turn, beside the load of the others.
unfoldable pub KeptAfter : (permits : ℕ) (l : Load) → ProveRuntime × Pc → Type 0
KeptAfter permits l (r, p) = IsKept permits r (add (pc_load p) l)
