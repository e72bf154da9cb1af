-- ===== src/Server/Threads/Kept/Working.antt =====
-- server/src/main.rs: a turn of a request against the permits and the counters.
use agenc_prover.Base.{ℕ, Option, none, some, ◌≡◌, refl, sym, arith}
use mathlib.Core.Path.{subst}
use agenc_prover.Server.Auth.{ProveAuth}
use agenc_prover.Server.Runtime.{ProveRuntime, Answer}
use agenc_prover.Server.Threads.{
  work, take_turn, Task, working, ended, completed, measured, timed, classified, finished,
  unwinding, Pc, handling, awaited, alone, delivered, crashed, join_counted, join_classified,
  settled, lost, Turn, goes, works, Outcome, returns, panics, after_work, expires, disconnects,
  Progress, still, left, gone, awaited_after, alone_after,
}
use agenc_prover.Server.Threads.Load.{Load, nothing, open_job, add, pc_load, task_load}
use agenc_prover.Server.Threads.Counters.{
  timeout-Agrees, lowered-Agrees, completed-Agrees, failed-Agrees, measured-Agrees, timed-Agrees,
  classified-Agrees,
}
use agenc_prover.Server.Threads.Kept.{IsKept, KeptAfter}
use agenc_prover.Server.Threads.Kept.Handling.{handle-IsKept}

-- What a task is worth after its turn.
progress_load : Progress → Load
progress_load (still task) = task_load task
progress_load (left result) = nothing
progress_load (gone join_error) = open_job

module _ (permits : ℕ) (l : Load) where
  worked :
      (r : ProveRuntime) (task : Task) (outcome : Outcome)
      → IsKept permits r (add (task_load task) l)
      → IsKept permits (work r task outcome).0 (add (progress_load (work r task outcome).1) l)
  unfolding work task_load progress_load
  worked r (working id fixed) (returns result duration) h = record {
    limit = h.limit;
    split = h.split;
    agrees = h.agrees;
  }
  worked r (working id fixed) (panics join_error) h = record {
    limit = h.limit;
    split = h.split;
    agrees = h.agrees;
  }
  worked r (ended result duration) outcome h = record {
    limit = h.limit;
    split = h.split;
    agrees = completed-Agrees _ _ _ _ _ _ h.agrees;
  }
  worked r (completed result duration) outcome h = record {
    limit = h.limit;
    split = h.split;
    agrees = measured-Agrees _ _ _ _ _ _ duration h.agrees;
  }
  worked r (measured result) outcome h = record {
    limit = h.limit;
    split = h.split;
    agrees = timed-Agrees _ _ _ _ _ _ h.agrees;
  }
  worked r (timed result) outcome h = record {
    limit = h.limit;
    split = h.split;
    agrees = classified-Agrees _ _ _ _ _ _ result h.agrees;
  }
  worked r (classified result) outcome h = record {
    limit = h.limit;
    split = h.split;
    agrees = lowered-Agrees _ _ _ _ _ _ h.agrees;
  }
  worked r (finished result) outcome h = record {
    limit = h.limit;
    split = (let p = h.split in omega arith);
    agrees = h.agrees;
  }
  worked r (unwinding join_error) outcome h = record {
    limit = h.limit;
    split = (let p = h.split in omega arith);
    agrees = h.agrees;
  }

  work-IsKept :
      (after : Progress → Pc) (r : ProveRuntime) (task : Task) (outcome : Outcome)
      → ((p : Progress) → pc_load (after p) ≡ progress_load p)
      → IsKept permits r (add (task_load task) l)
      → KeptAfter permits l (after_work after (work r task outcome))
  unfolding KeptAfter
  work-IsKept after r task outcome place h =
      subst (λ w. IsKept permits (work r task outcome).0 (add w l))
        (sym (place (work r task outcome).1)) (worked r task outcome h)

  awaited_load : (p : Progress) → pc_load (awaited_after p) ≡ progress_load p
  unfolding pc_load progress_load
  awaited_load (still task) = refl
  awaited_load (left result) = refl
  awaited_load (gone join_error) = refl

  alone_load : (a : Answer) (p : Progress) → pc_load (alone_after a p) ≡ progress_load p
  unfolding pc_load progress_load
  alone_load a (still task) = refl
  alone_load a (left result) = refl
  alone_load a (gone join_error) = refl

  -- After a turn, if it is possible.
  unfoldable pub After : Option (ProveRuntime × Pc) → Type 0
  After none = Unit
  After (some x) = KeptAfter permits l x

  pub turn-IsKept :
      (auth : ProveAuth) (r : ProveRuntime) (p : Pc) (turn : Turn)
      → IsKept permits r (add (pc_load p) l)
      → After (take_turn auth r p turn)
  unfolding take_turn After KeptAfter pc_load
  turn-IsKept auth r (handling handler) (goes now later) h =
      handle-IsKept permits l auth r handler now later h
  turn-IsKept auth r (handling handler) (works outcome) h = tt
  turn-IsKept auth r (handling handler) expires h = tt
  turn-IsKept auth r (handling handler) disconnects h = tt
  turn-IsKept auth r (awaited task) (goes now later) h = tt
  turn-IsKept auth r (awaited task) (works outcome) h =
      work-IsKept awaited_after r task outcome awaited_load h
  turn-IsKept auth r (awaited task) expires h = record {
    limit = h.limit;
    split = h.split;
    agrees = timeout-Agrees _ _ _ _ _ _ h.agrees;
  }
  turn-IsKept auth r (awaited task) disconnects h = record {
    limit = h.limit;
    split = h.split;
    agrees = h.agrees;
  }
  turn-IsKept auth r (alone a task) (goes now later) h = tt
  turn-IsKept auth r (alone a task) (works outcome) h =
      work-IsKept (alone_after a) r task outcome (alone_load a) h
  turn-IsKept auth r (alone a task) expires h = tt
  turn-IsKept auth r (alone a task) disconnects h = tt
  turn-IsKept auth r (delivered result) (goes now later) h = record {
    limit = h.limit;
    split = h.split;
    agrees = h.agrees;
  }
  turn-IsKept auth r (delivered result) (works outcome) h = tt
  turn-IsKept auth r (delivered result) expires h = record {
    limit = h.limit;
    split = h.split;
    agrees = timeout-Agrees _ _ _ _ _ _ h.agrees;
  }
  turn-IsKept auth r (delivered result) disconnects h = record {
    limit = h.limit;
    split = h.split;
    agrees = h.agrees;
  }
  turn-IsKept auth r (crashed join_error) (goes now later) h = record {
    limit = h.limit;
    split = h.split;
    agrees = completed-Agrees _ _ _ _ _ _ h.agrees;
  }
  turn-IsKept auth r (crashed join_error) (works outcome) h = tt
  turn-IsKept auth r (crashed join_error) expires h = record {
    limit = h.limit;
    split = h.split;
    agrees = timeout-Agrees _ _ _ _ _ _ h.agrees;
  }
  turn-IsKept auth r (crashed join_error) disconnects h = record {
    limit = h.limit;
    split = h.split;
    agrees = h.agrees;
  }
  turn-IsKept auth r (join_counted e) (goes now later) h = record {
    limit = h.limit;
    split = h.split;
    agrees = failed-Agrees _ _ _ _ _ _ h.agrees;
  }
  turn-IsKept auth r (join_counted e) (works outcome) h = tt
  turn-IsKept auth r (join_counted e) expires h = tt
  turn-IsKept auth r (join_counted e) disconnects h = tt
  turn-IsKept auth r (join_classified e) (goes now later) h = record {
    limit = h.limit;
    split = h.split;
    agrees = lowered-Agrees _ _ _ _ _ _ h.agrees;
  }
  turn-IsKept auth r (join_classified e) (works outcome) h = tt
  turn-IsKept auth r (join_classified e) expires h = tt
  turn-IsKept auth r (join_classified e) disconnects h = tt
  turn-IsKept auth r (settled a) (goes now later) h = tt
  turn-IsKept auth r (settled a) (works outcome) h = tt
  turn-IsKept auth r (settled a) expires h = tt
  turn-IsKept auth r (settled a) disconnects h = tt
  turn-IsKept auth r (lost a) (goes now later) h = tt
  turn-IsKept auth r (lost a) (works outcome) h = tt
  turn-IsKept auth r (lost a) expires h = tt
  turn-IsKept auth r (lost a) disconnects h = tt
